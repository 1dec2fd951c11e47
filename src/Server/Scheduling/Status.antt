-- ===== src/Server/Scheduling/Status.antt =====
-- What the scheduler sees of a status that `handleUpdateAgentStatus` of apps/api/src/index.ts has set.
use evergent.Base.{
  Bool, true, false, Option, some, String, ◌≡◌, refl, sym, ap, ◌∙◌, if_elim, if◌then◌else◌, ℕ, not,
  ◌&&◌,
}
use evergent.Base.StringMap.{get, set, get-set_self}
use evergent.Agents.{paused, Agent, AgentStore, update_agent, Directory, can_access_agent}
use evergent.Schedules.{ScheduleRecord, is_running}
use evergent.Scheduler.{is_agent_active, is_eligible, ran_at}
use evergent.Server.Scheduling.{
  KnownAgents, info_of, agent_status, StatusReply, handle_update_agent_status, by_status, changed,
  problem, after_update,
}

-- The handler leaves the server's map.
keeps_map :
    (owner : Option String) (id : String) (status : Option String) (d : Directory) (k : KnownAgents)
    → (handle_update_agent_status owner id status d k).1.agents ≡ k.agents
unfolding handle_update_agent_status
keeps_map owner id status d k =
    if_elim (λ (p : Directory × KnownAgents × StatusReply). p.1.agents ≡ k.agents)
      ((can_access_agent owner id d).1) _ _ (λ allowed. refl) (λ denied. refl)

agent_status_mapped :
    (k : KnownAgents) (id : String) (a : Agent)
    → get id k.agents ≡ some a
    → agent_status k id ≡ some (info_of a)
unfolding agent_status
agent_status_mapped k id a h = rw (h, agent_status) refl

abbrev with_paused : Agent → Agent
with_paused b = record b { status = paused; is_enabled = false }

update_paused :
    (id : String) (s : AgentStore) (b : Agent)
    → get id s ≡ some b
    → update_agent id (λ a. a) (some paused) s ≡ (set id (with_paused b) s, some (with_paused b))
unfolding update_agent
update_paused id s b h = rw (h, update_agent) refl

-- The answer of the handler, by the access and by what the update gave.
abbrev answer :
    Directory
    → KnownAgents
    → Bool
    → AgentStore × StatusReply
    → Directory × KnownAgents × StatusReply
answer d k access r =
    if access then (d, record k { agent_store = r.0 }, r.1) else (d, k, problem 404 "not found")

allowed_handler :
    (owner : Option String) (id : String) (d : Directory) (k : KnownAgents) (b : Agent)
    → (can_access_agent owner id d).1 ≡ true
    → get id k.agent_store ≡ some b
    → handle_update_agent_status owner id (some "paused") d k ≡ (
      (can_access_agent owner id d).0,
      record k { agent_store = set id (with_paused b) k.agent_store },
      changed b.id paused,
    )
unfolding handle_update_agent_status
allowed_handler owner id d k b allowed h =
    let d' = (can_access_agent owner id d).0 in
    ap (λ c. answer d' k c (by_status (some paused) id k.agent_store)) allowed
    ∙ ap (λ r. answer d' k true (after_update r)) (update_paused id k.agent_store b h)

-- An owner pauses an agent that the server's map has too. The store has the agent paused then, but the
-- scheduler's view of every agent that the map has stays, that of the paused one included, so that
-- their schedules run as before.
pub pause_unseen :
    (owner : Option String) (id : String) (d : Directory) (k : KnownAgents) (a b : Agent)
    → (can_access_agent owner id d).1 ≡ true
    → get id k.agents ≡ some a
    → get id k.agent_store ≡ some b
    → let after = handle_update_agent_status owner id (some "paused") d k in
      (after.2 ≡ changed b.id paused)
      × ((b' : Agent) × (get id after.1.agent_store ≡ some b') × (b'.status ≡ paused))
      × ((now : ℕ) (r : ScheduleRecord) (c : Agent)
          → get r.agent_id k.agents ≡ some c
          → is_eligible (agent_status after.1) now r ≡ is_eligible (agent_status k) now r)
unfolding is_eligible
pause_unseen owner id d k a b allowed mapped stored =
    let after = handle_update_agent_status owner id (some "paused") d k in
    let e = allowed_handler owner id d k b allowed stored in
    let map_kept = keeps_map owner id (some "paused") d k in
    (
      ap (λ p. p.2) e,
      (
        with_paused b,
        ap (λ p. get id p.1.agent_store) e ∙ get-set_self id (with_paused b) k.agent_store,
        refl,
      ),
      (λ now r c known.
          let same : agent_status after.1 r.agent_id ≡ agent_status k r.agent_id =
            agent_status_mapped after.1 r.agent_id c (ap (get r.agent_id) map_kept ∙ known)
            ∙ sym (agent_status_mapped k r.agent_id c known) in
          ap (λ o. is_running r.status && is_agent_active o && not (ran_at now r.last_run_at))
            same),
    )
