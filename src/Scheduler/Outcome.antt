-- ===== src/Scheduler/Outcome.antt =====
-- Where a run of the scheduler (apps/api/src/scheduler.ts) leaves its schedule.
use evergent.Base.{
  ℕ, Bool, false, not, ◌&&◌, Option, some, String, ◌==◌, ◌≡◌, ◌≢◌, refl, ap, ◌∙◌, ◌<◌, arith, leb,
}
use evergent.Base.Result.{Result, ok, error}
use evergent.Base.StringMap.{get, get-set_self}
use evergent.Schedules.{
  ScheduleRecord, ScheduleStore, SchedulePatch, is_running, patched, update_schedule, is_due,
}
use evergent.Schedules.Validation.{Calendar, runs_at, validate_schedule_expression}
use evergent.Schedules.Validation.NextRun.{validate_schedule_expression-later}
use evergent.Scheduler.{
  AgentInfo, SchedulerState, ran, ran_until, patch_after, after_callback, run_schedule,
  is_agent_active, is_eligible,
}

get-update_schedule :
    (c : ℕ) (patch : SchedulePatch) (r : ScheduleRecord) (s : ScheduleStore)
    → get r.id s ≡ some r
    → get r.id (update_schedule c r.id patch s).0 ≡ some (patched c patch r)
unfolding update_schedule
get-update_schedule c patch r s at =
    rw (at, update_schedule) (get-set_self r.id (patched c patch r) s)

other_time : (b : Bool) (now later : ℕ) → later ≢ now → (b && not (now == later)) ≡ b
other_time b now later h = ground arith

not_yet : (b : Bool) (t before : ℕ) → before < t → (b && leb t before) ≡ false
not_yet b t before h = ground arith

module _ {W R : Type 0} (clock : W → ℕ) (cal : Calendar)
    (execute : ScheduleRecord → ℕ → W → W × Result R) where
  after_callback_thrown :
      (r : ScheduleRecord) (now : ℕ) (s : ScheduleStore) (run : W × Result R) (message : String)
      → get r.id s ≡ some r
      → run.1 ≡ error message
      → let after = after_callback clock cal execute r now s run in
        (after.1 ≡ error message)
        × (get r.id after.0.schedules ≡ some (patched (clock run.0) (ran now) r))
  unfolding after_callback
  after_callback_thrown r now s (w, ok result) message at h = cc
  after_callback_thrown r now s (w, error thrown) message at h =
      (h, get-update_schedule (clock w) (ran now) r s at)

  -- A run whose callback throws: the schedule notes the run and keeps its next run, so that it stays
  -- as due as before, and a pass at any other time runs it again if it is active with an active agent.
  pub run_schedule-thrown :
      (r : ScheduleRecord) (now : ℕ) (st : SchedulerState W) (message : String)
      → get r.id st.schedules ≡ some r
      → (execute r now st.world).1 ≡ error message
      → (agent_of : String → Option AgentInfo) (later : ℕ) → later ≢ now
      → let after = run_schedule clock cal execute r now st in
        (after.1 ≡ error message)
        × ((e : ScheduleRecord) × (get r.id after.0.schedules ≡ some e)
            × (e.last_run_at ≡ some now)
            × (is_due later e ≡ is_due later r)
            × (is_eligible agent_of later e
                ≡ (is_running r.status && is_agent_active (agent_of r.agent_id))))
  unfolding run_schedule is_eligible
  run_schedule-thrown r now st message at thrown agent_of later differs =
      let run = execute r now st.world in
      let (result, stored) = after_callback_thrown r now st.schedules run message at thrown in
      (
        result,
        (patched (clock run.0) (ran now) r, stored, refl, refl, other_time _ now later differs),
      )

  after_callback_returned :
      (r : ScheduleRecord) (now t : ℕ) (s : ScheduleStore) (run : W × Result R) (result : R)
      → get r.id s ≡ some r
      → run.1 ≡ ok result
      → validate_schedule_expression cal
          (clock run.0)
          (some r.schedule_expression)
          (some r.timezone)
        ≡ runs_at t
      → get r.id (after_callback clock cal execute r now s run).0.schedules
        ≡ some (patched (clock run.0) (ran_until now t) r)
  unfolding after_callback
  after_callback_returned r now t s (w, error message) result at h valid = cc
  after_callback_returned r now t s (w, ok value) result at h valid =
      ap (λ v. get r.id (update_schedule (clock w) r.id (patch_after now v) s).0) valid
      ∙ get-update_schedule (clock w) (ran_until now t) r s at

  -- A run whose callback returns, of a schedule with a valid expression: the next run is later than
  -- the clock shows then, and until that time no pass finds the schedule due.
  pub run_schedule-moves_on :
      (r : ScheduleRecord) (now t : ℕ) (st : SchedulerState W) (result : R)
      → get r.id st.schedules ≡ some r
      → (execute r now st.world).1 ≡ ok result
      → validate_schedule_expression cal
          (clock (execute r now st.world).0)
          (some r.schedule_expression)
          (some r.timezone)
        ≡ runs_at t
      → (e : ScheduleRecord) × (get r.id (run_schedule clock cal execute r now st).0.schedules
          ≡ some e)
        × (e.last_run_at ≡ some now)
        × (e.next_run_at ≡ t)
        × (clock (execute r now st.world).0 < t)
        × ((before : ℕ) → before < t → is_due before e ≡ false)
  unfolding run_schedule
  run_schedule-moves_on r now t st result at returned valid =
      let run = execute r now st.world in
      let (later, found) =
        validate_schedule_expression-later cal (clock run.0) t r.schedule_expression r.timezone
          valid in
      (
        patched (clock run.0) (ran_until now t) r,
        after_callback_returned r now t st.schedules run result at returned valid,
        refl,
        refl,
        later,
        (λ before h. not_yet (is_running r.status) t before h),
      )
