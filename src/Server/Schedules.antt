-- ===== src/Server/Schedules.antt =====
-- The handlers of schedules in apps/api/src/index.ts, from where the path has been matched and the body
-- parsed, and the access to schedules of packages/database/src/authorization.ts.
pub mod Changes
pub mod Owners
use evergent.Base.{
  ℕ, Bool, true, false, List, Option, none, some, String, if◌then◌else◌, min, max, str_eq,
  get_or_else,
}
use evergent.Base.Floats.{Floats}
use evergent.Base.StringMap.{get}
use evergent.Shared.{AgentIntent}
use evergent.Agents.{Directory, can_access_agent}
use evergent.Schedules.{
  ScheduleStatus, active, paused, disabled, ScheduleRecord, ScheduleStore, SchedulePatch,
  create_schedule, list_by_agent, update_schedule, delete_schedule,
}
use evergent.Schedules.Validation.{
  Calendar, ExpressionValidation, runs_at, refused, validate_schedule_expression,
  validate_schedule_intent,
}

-- What a handler answers: an error, a schedule, the schedules of an agent, or `{ deleted: true }`.
pub data ScheduleReply : Type 0 where
  problem : ℕ → String → ScheduleReply
  schedule : ℕ → Option ScheduleRecord → ScheduleReply
  schedules : List ScheduleRecord → ScheduleReply
  deleted : ScheduleReply

abbrev pub not_found : ScheduleReply
not_found = problem 404 "not found"

-- The fields of a body that the handlers read, where they have the declared types.
pub record ScheduleBody : Type 0 where
  pub intent : Option AgentIntent
  pub schedule_expression : Option String
  pub timezone : Option String

-- `schedule.ownerId === ctx.ownerId`
abbrev pub owns : Option String → ScheduleRecord → Bool
owns none r = false
owns (some owner) r = str_eq r.owner_id owner

-- `canAccessSchedule`, which `canUpdateSchedule`, `canDeleteSchedule`, `canPauseSchedule`,
-- `canResumeSchedule` and `canDisableSchedule` call
unfoldable pub can_access_schedule : Option String → String → ScheduleStore → Bool
can_access_schedule owner id s = elim (get id s) [ none ↦ false | some r ↦ owns owner r ]

-- `handleListSchedules`, with the number that the query has, or 50
unfoldable pub handle_list_schedules :
    Option String → String → ℕ → Directory → ScheduleStore → Directory × ScheduleReply
unfolding can_access_agent list_by_agent
handle_list_schedules owner agent_id limit d s =
    let (d', allowed) = can_access_agent owner agent_id d in
    if allowed
    then (d', schedules (list_by_agent agent_id (max 1 (min 100 limit)) s))
    else (d', not_found)

abbrev pub shown_to : Option String → Option ScheduleRecord → ScheduleReply
shown_to owner none = not_found
shown_to owner (some r) = if owns owner r then schedule 200 (some r) else not_found

-- `handleGetSchedule`
unfoldable pub handle_get_schedule :
    Option String → String → String → Directory → ScheduleStore → Directory × ScheduleReply
unfolding can_access_agent
handle_get_schedule owner agent_id id d s =
    let (d', allowed) = can_access_agent owner agent_id d in
    if allowed then (d', shown_to owner (get id s)) else (d', not_found)

-- The id that the server draws, and its clock.
pub record Draw : Type 0 where
  pub id : String
  pub now : ℕ

module _ (F : Floats) (cal : Calendar) where
  abbrev pub new_schedule :
      Draw → String → String → AgentIntent → String → String → ℕ → ScheduleRecord
  new_schedule c owner agent_id intent expression timezone next = record {
    id = c.id;
    agent_id = agent_id;
    owner_id = owner;
    status = active;
    intent = intent;
    schedule_expression = expression;
    timezone = timezone;
    next_run_at = next;
    last_run_at = none;
    created_at = c.now;
    updated_at = c.now;
  }

  -- The validated schedule is stored.
  abbrev pub create_validated :
      Draw
      → String
      → String
      → ScheduleBody
      → Option AgentIntent
      → ExpressionValidation
      → ScheduleStore
      → ScheduleStore × ScheduleReply
  create_validated c owner agent_id b intent (refused message) s = (s, problem 400 message)
  create_validated c owner agent_id b none (runs_at t) s = (s, problem 400 "intent is required")
  create_validated c owner agent_id b (some intent) (runs_at t) s =
      let r =
        new_schedule c owner agent_id intent (get_or_else b.schedule_expression "")
          (get_or_else b.timezone "UTC") t in
      let (s', made) = create_schedule r s in (s', schedule 201 (some made))

  -- From the validation of the intent on.
  abbrev pub create_checked :
      Option String
      → Draw
      → String
      → String
      → ScheduleBody
      → ScheduleStore
      → ScheduleStore × ScheduleReply
  create_checked (some message) c owner agent_id b s = (s, problem 400 message)
  create_checked none c owner agent_id b s =
      create_validated c owner agent_id b b.intent
        (validate_schedule_expression cal c.now b.schedule_expression
          (some (get_or_else b.timezone "UTC")))
        s

  -- From the body on.
  abbrev pub create_body :
      Draw → String → String → ScheduleBody → ScheduleStore → ScheduleStore × ScheduleReply
  create_body c owner agent_id b s =
      create_checked (validate_schedule_intent F b.intent) c owner agent_id b s

  -- `handleCreateSchedule` of an authenticated owner
  unfoldable pub handle_create_schedule :
      Draw
      → String
      → String
      → ScheduleBody
      → Directory
      → ScheduleStore
      → Directory × ScheduleStore × ScheduleReply
  unfolding can_access_agent validate_schedule_intent validate_schedule_expression create_schedule
  handle_create_schedule c owner agent_id b d s =
      let (d', allowed) = can_access_agent (some owner) agent_id d in
      if allowed
      then (let (s', reply) = create_body c owner agent_id b s in (d', s', reply))
      else (d', s, not_found)

  abbrev pub rescheduled : String → ℕ → SchedulePatch
  rescheduled expression t r = record r { schedule_expression = expression; next_run_at = t }

  -- The schedule takes a new expression, or only a new time of update.
  abbrev pub by_validation :
      ℕ → String → String → ExpressionValidation → ScheduleStore → ScheduleStore × ScheduleReply
  by_validation now id expression (refused message) s = (s, problem 400 message)
  by_validation now id expression (runs_at t) s =
      let (s', updated) = update_schedule now id (rescheduled expression t) s in
      (s', schedule 200 updated)

  abbrev pub update_body :
      ℕ → String → Option String → ScheduleRecord → ScheduleStore → ScheduleStore × ScheduleReply
  update_body now id none r s =
      let (s', updated) = update_schedule now id (λ x. x) s in (s', schedule 200 updated)
  update_body now id (some expression) r s =
      by_validation now id expression
        (validate_schedule_expression cal now (some expression) (some r.timezone)) s

  abbrev pub update_found :
      ℕ
      → String
      → Option String
      → Option ScheduleRecord
      → ScheduleStore
      → ScheduleStore × ScheduleReply
  update_found now id expression none s = (s, not_found)
  update_found now id expression (some r) s = update_body now id expression r s

  -- `handleUpdateSchedule`: nothing but the expression of a body is read.
  unfoldable pub handle_update_schedule :
      ℕ → Option String → String → Option String → ScheduleStore → ScheduleStore × ScheduleReply
  unfolding can_access_schedule validate_schedule_expression update_schedule
  handle_update_schedule now owner id expression s =
      if can_access_schedule owner id s
      then update_found now id expression (get id s) s
      else (s, not_found)
