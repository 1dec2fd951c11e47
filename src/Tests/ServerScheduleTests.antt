-- ===== src/Tests/ServerScheduleTests.antt =====
-- The handlers of schedules and of an agent's status.
use evergent.Base.{ℕ, ◌≡◌, refl, [], ◌∷◌, some, arith, eq_iff}
use evergent.Base.StringMap.{get, set}
use evergent.Agents.{Agent, paused, can_access_agent, resolve_agent}
use evergent.Schedules.{ScheduleRecord, ScheduleStore}
use evergent.Scheduler.{is_eligible}
use evergent.Server.Schedules.Changes.{removal, serve}
use evergent.Server.Schedules.Owners.{serve_keeps}
use evergent.Server.Scheduling.{KnownAgents, agent_status, changed, handle_update_agent_status}
use evergent.Server.Scheduling.Status.{pause_unseen}
use evergent.Tests.Samples.{whole}
use evergent.Tests.ScheduleTests.{rent, days_of_utc}
use evergent.Tests.ServerTests.{ann_agent, restarted}

abbrev schedules : ScheduleStore
schedules = ("s1", rent) ∷ []

serve_keeps_example :
    get "s1" (serve whole days_of_utc "bob" (removal "s1") restarted schedules).1 ≡ some rent
unfolding get
serve_keeps_example =
    serve_keeps whole days_of_utc "bob" (removal "s1") restarted schedules tt "s1" rent refl
      (ground (arith, eq_iff "ann" "bob"))

abbrev known : KnownAgents
known = record { agents = ("a1", ann_agent) ∷ []; agent_store = ("a1", ann_agent) ∷ [] }

pause_unseen_example :
    let after = handle_update_agent_status (some "ann") "a1" (some "paused") restarted known in
    (after.2 ≡ changed "a1" paused)
    × ((b : Agent) × (get "a1" after.1.agent_store ≡ some b) × (b.status ≡ paused))
    × ((now : ℕ) (r : ScheduleRecord) (c : Agent)
        → get r.agent_id known.agents ≡ some c
        → is_eligible (agent_status after.1) now r ≡ is_eligible (agent_status known) now r)
unfolding can_access_agent resolve_agent get set
pause_unseen_example =
    pause_unseen (some "ann") "a1" restarted known ann_agent ann_agent refl refl refl
