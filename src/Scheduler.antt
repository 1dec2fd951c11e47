-- ===== src/Scheduler.antt =====
-- `AgentScheduler` of apps/api/src/scheduler.ts, one pass of it, and the callback of
-- apps/api/src/schedule-execution.ts. What is outside of the schedules is the world, which has the
-- clock and is changed by the callback; the agents that the pass looks up stay.
pub mod Execution
pub mod Pass
pub mod Outcome
pub mod Twice
use evergent.Base.{
  ℕ, suc, Bool, true, false, not, ◌&&◌, List, [], ◌∷◌, Option, none, some, String, ◌==◌,
  if◌then◌else◌,
}
use evergent.Base.Result.{Result, ok, error}
use evergent.Agents.{AgentStatus, is_active}
use evergent.Schedules.{
  ScheduleRecord, ScheduleStore, SchedulePatch, is_running, list_due, update_schedule,
}
use evergent.Schedules.Validation.{
  Calendar, ExpressionValidation, runs_at, refused, validate_schedule_expression,
}

pub record AgentInfo : Type 0 where
  pub id : String
  pub status : AgentStatus
  pub owner_id : String

pub record SchedulerState (W : Type 0) : Type 0 where
  pub world : W
  pub schedules : ScheduleStore

-- `{ lastRunAt: nowIso }`
abbrev pub ran : ℕ → SchedulePatch
ran now existing = record existing { last_run_at = some now }

abbrev pub ran_until : ℕ → ℕ → SchedulePatch
ran_until now t existing = record existing { last_run_at = some now; next_run_at = t }

-- The patch after a run without an exception.
abbrev pub patch_after : ℕ → ExpressionValidation → SchedulePatch
patch_after now (runs_at t) = ran_until now t
patch_after now (refused message) = ran now

-- `schedule.lastRunAt && schedule.lastRunAt === now`
abbrev pub ran_at : ℕ → Option ℕ → Bool
ran_at now none = false
ran_at now (some t) = t == now

abbrev pub count_of {ℓ} : {R : Type ℓ} → Result R → ℕ → ℕ
count_of (ok result) executed = suc executed
count_of (error message) executed = executed

abbrev pub is_agent_active : Option AgentInfo → Bool
is_agent_active none = false
is_agent_active (some a) = is_active a.status

-- The tests that skip a schedule.
unfoldable pub is_eligible : (String → Option AgentInfo) → ℕ → ScheduleRecord → Bool
is_eligible agent_of now r =
    is_running r.status && is_agent_active (agent_of r.agent_id) && not (ran_at now r.last_run_at)

module _ {W R : Type 0} (clock : W → ℕ) (cal : Calendar)
    (execute : ScheduleRecord → ℕ → W → W × Result R) where
  -- What follows the callback: the schedule is updated, and an exception is passed on.
  unfoldable pub after_callback :
      ScheduleRecord → ℕ → ScheduleStore → W × Result R → SchedulerState W × Result R
  unfolding update_schedule validate_schedule_expression
  after_callback r now s (w, error message) = (
    record { world = w; schedules = (update_schedule (clock w) r.id (ran now) s).0 },
    error message,
  )
  after_callback r now s (w, ok result) =
      let validation =
        validate_schedule_expression cal (clock w) (some r.schedule_expression) (some r.timezone) in
      (
        record {
          world = w;
          schedules = (update_schedule (clock w) r.id (patch_after now validation) s).0;
        },
        ok result,
      )

  unfoldable pub run_schedule : ScheduleRecord → ℕ → SchedulerState W → SchedulerState W × Result R
  unfolding after_callback
  run_schedule r now st = after_callback r now st.schedules (execute r now st.world)

  module _ (agent_of : String → Option AgentInfo) where
    -- The loop over the due schedules.
    unfoldable pub run_each : ℕ → List ScheduleRecord → SchedulerState W → ℕ → SchedulerState W × ℕ
    unfolding run_schedule is_eligible
    run_each now [] st executed = (st, executed)
    run_each now (r ∷ due) st executed =
        let run = run_schedule r now st in
        let after = run_each now due run.0 (count_of run.1 executed) in
        let skipped = run_each now due st executed in
        if is_eligible agent_of now r then after else skipped

    -- `runDue`
    unfoldable pub run_due : ℕ → SchedulerState W → SchedulerState W × ℕ
    unfolding run_each list_due
    run_due now st = run_each now (list_due now 100 st.schedules) st 0
