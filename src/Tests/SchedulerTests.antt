-- ===== src/Tests/SchedulerTests.antt =====
-- The next run of a schedule, and the scheduler's passes.
use evergent.Base.{
  ℕ, suc, ◌≡◌, refl, ap, true, false, [], ◌∷◌, some, String, Option, ◌<◌, ◌≤◌, ◌↔◌, All, filterb,
  ◌&&◌, arith,
}
use evergent.Base.StringMap.{get}
use evergent.Base.Result.{Result, ok, error}
use evergent.Base.Parse.{split, split_spaces, trim}
use evergent.Base.Text.{codes}
use evergent.Agents.{AgentStatus}
use evergent.Schedules.{ScheduleStatus, ScheduleRecord, is_due, list_due, is_running}
use evergent.Schedules.Cron.{
  is_valid_part, is_valid_cron_field, is_valid_base, matches_part, matches_minutes,
}
use evergent.Schedules.Validation.{
  Expression, compute_next_run, validate_schedule_expression, runs_at, expression_error,
  field_error, next_run_of, search_from, is_hit, matches_expression,
}
use evergent.Schedules.Validation.NextRun.{IsNextRun, compute_next_run_lem}
use evergent.Scheduler.{
  AgentInfo, SchedulerState, is_eligible, is_agent_active, run_schedule, run_due,
}
use evergent.Scheduler.Pass.{CanRun, run_all, run_due_lem}
use evergent.Scheduler.Twice.{run_due_twice}
use evergent.Scheduler.Outcome.{run_schedule-thrown, run_schedule-moves_on}
use evergent.Tests.ScheduleTests.{rent, days_of_utc}

abbrev every_five : Expression
every_five = record {
  minute = codes "*/5";
  hour = codes "*";
  dom = codes "*";
  month = codes "*";
  dow = codes "*";
}

compute_next_run_lem_example :
    IsNextRun days_of_utc every_five 90000 525600
      (days_of_utc.start_of_minute 90000)
      (compute_next_run days_of_utc 90000 every_five)
compute_next_run_lem_example = compute_next_run_lem days_of_utc 90000 every_five

abbrev clock : ℕ → ℕ
clock calls = 240000

abbrev works : ScheduleRecord → ℕ → ℕ → ℕ × Result String
works r now calls = (suc calls, ok "done")

abbrev throws : ScheduleRecord → ℕ → ℕ → ℕ × Result String
throws r now calls = (suc calls, error "queue is full")

abbrev agents : String → Option AgentInfo
agents id = some (record { id = id; status = AgentStatus.active; owner_id = "ann" })

abbrev start : SchedulerState ℕ
start = record { world = 0; schedules = ("s1", rent) ∷ [] }

run_due_lem_example :
    (run_due clock days_of_utc works agents 2000 start
      ≡ run_all clock days_of_utc works 2000
          (filterb (is_eligible agents 2000) (list_due 2000 100 start.schedules))
          start
          0)
    × ((r : ScheduleRecord) → (is_eligible agents 2000 r ≡ true) ↔ CanRun agents 2000 r)
    × All
        (λ r. (r.status ≡ ScheduleStatus.active) × (r.next_run_at ≤ 2000))
        (list_due 2000 100 start.schedules)
run_due_lem_example = run_due_lem clock days_of_utc works agents 2000 start

run_due_twice_example :
    let after = (run_due clock days_of_utc works agents 2000 start).0 in
    run_due clock days_of_utc works agents 2000 after ≡ (after, 0)
run_due_twice_example =
    run_due_twice clock days_of_utc works agents 2000 start (refl, tt, tt) (omega arith)

run_schedule-thrown_example :
    let after = run_schedule clock days_of_utc throws rent 2000 start in
    (after.1 ≡ error "queue is full")
    × ((e : ScheduleRecord) × (get "s1" after.0.schedules ≡ some e)
        × (e.last_run_at ≡ some 2000)
        × (is_due 62000 e ≡ is_due 62000 rent)
        × (is_eligible agents 62000 e ≡ (is_running rent.status && is_agent_active (agents "a1"))))
unfolding get
run_schedule-thrown_example =
    run_schedule-thrown clock days_of_utc throws rent 2000 start "queue is full" refl refl agents
      62000 (λ e. omega arith)

-- The search ends at the first minute if that is a hit.
search_from-found :
    (n candidate : ℕ)
    → is_hit days_of_utc every_five 240000 (days_of_utc.next_minute candidate) ≡ true
    → search_from days_of_utc every_five 240000 (suc n) candidate
      ≡ some (days_of_utc.next_minute candidate)
unfolding search_from
search_from-found n candidate h = rw h refl

next_of_five : compute_next_run days_of_utc 240000 every_five ≡ some 300000
unfolding compute_next_run matches_expression matches_minutes matches_part split
next_of_five = search_from-found 525599 240000 refl

valid_five :
    validate_schedule_expression days_of_utc 240000 (some "*/5 * * * *") (some "UTC")
    ≡ runs_at 300000
unfolding validate_schedule_expression expression_error field_error is_valid_cron_field
    is_valid_part is_valid_base split split_spaces trim
valid_five = ap next_run_of next_of_five

run_schedule-moves_on_example :
    (e : ScheduleRecord) × (get "s1"
        (run_schedule clock days_of_utc works rent 2000 start).0.schedules
      ≡ some e)
    × (e.last_run_at ≡ some 2000)
    × (e.next_run_at ≡ 300000)
    × (240000 < 300000)
    × ((before : ℕ) → before < 300000 → is_due before e ≡ false)
unfolding get
run_schedule-moves_on_example =
    run_schedule-moves_on clock days_of_utc works rent 2000 300000 start "done" refl refl valid_five

-- One pass runs the schedule once, and puts its next run in the future.
pass_test :
    ((run_due clock days_of_utc throws agents 2000 start).0.world ≡ 1)
    × ((run_due clock days_of_utc throws agents 2000 start).1 ≡ 0)
    × ((run_due clock days_of_utc throws agents 500 start).0.world ≡ 0)
unfolding run_due
pass_test = (refl, refl, refl)
