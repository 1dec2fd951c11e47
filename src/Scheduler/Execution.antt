-- ===== src/Scheduler/Execution.antt =====
-- `ScheduleExecutionService` of apps/api/src/schedule-execution.ts: a schedule's intent through the
-- pipeline, from the account of the signer.
use evergent.Base.{none, some, String}
use evergent.Base.Result.{Result, ok, error}
use evergent.Base.Floats.{Floats}
use evergent.Base.Text.{◌<>◌}
use evergent.Shared.{deny}
use evergent.Schedules.{ScheduleRecord}
use evergent.Pipeline.{
  Parts, PipelineConfig, Moment, Pipeline, PipelineOutcome, OutcomeStatus, outcome,
}
use evergent.Pipeline.Execute.{Source}
use evergent.Pipeline.Execute.Admission.{execute}

-- The outcome that stands for an account that cannot be loaded.
abbrev pub load_failed : ScheduleRecord → String → PipelineOutcome
load_failed r message =
    outcome OutcomeStatus.rejected ("Cannot load source account: " <> message) (record {
      result = deny;
      reason = "source account load failed";
      rule = "schedule";
      intent = some r.intent;
    })

module _ (F : Floats) {Signed : Type 0} (P : Parts Signed) (cfg : PipelineConfig) where
  abbrev pub schedule_source : P.Account → String → ScheduleRecord → Source P.Account
  schedule_source account account_id r = record {
    account = account;
    agent_id = some r.agent_id;
    owner_id = some r.owner_id;
    account_id = some account_id;
  }

  -- `executeSchedule`, from what `getSourceAccount` returned
  abbrev pub execute_from :
      Result P.Account
      → String
      → Moment
      → ScheduleRecord
      → Pipeline F Signed
      → Pipeline F Signed × PipelineOutcome
  execute_from (error message) account_id m r s = (s, load_failed r message)
  execute_from (ok account) account_id m r s =
      execute F P cfg m r.intent (schedule_source account account_id r) none s

  unfoldable pub execute_schedule :
      String → Moment → ScheduleRecord → Pipeline F Signed → Pipeline F Signed × PipelineOutcome
  unfolding execute
  execute_schedule account_id m r s = execute_from P.load_account account_id m r s
