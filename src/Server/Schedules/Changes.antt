-- ===== src/Server/Schedules/Changes.antt =====
-- The handlers of apps/api/src/index.ts that delete, pause, resume and disable schedules, and the routes
-- of the requests that change schedules.
use evergent.Base.{ℕ, Option, none, some, String, if◌then◌else◌}
use evergent.Base.Floats.{Floats}
use evergent.Base.StringMap.{get}
use evergent.Agents.{Directory}
use evergent.Schedules.{
  ScheduleStatus, active, paused, disabled, ScheduleRecord, ScheduleStore, SchedulePatch,
  update_schedule, delete_schedule,
}
use evergent.Schedules.Validation.{Calendar}
use evergent.Server.Schedules.{
  ScheduleReply, schedule, deleted, not_found, ScheduleBody, can_access_schedule, Draw,
  handle_create_schedule, handle_update_schedule,
}

-- `handleDeleteSchedule`
unfoldable pub handle_delete_schedule :
    Option String → String → ScheduleStore → ScheduleStore × ScheduleReply
unfolding can_access_schedule delete_schedule
handle_delete_schedule owner id s =
    let (s', gone) = delete_schedule id s in
    if can_access_schedule owner id s
    then if gone then (s', deleted) else (s', not_found)
    else (s, not_found)

pub data ScheduleAction : Type 0 where
  pause resume disable : ScheduleAction

abbrev pub status_after : ScheduleAction → ScheduleStatus
status_after pause = paused
status_after resume = active
status_after disable = disabled

abbrev pub with_status : ScheduleStatus → SchedulePatch
with_status status r = record r { status = status }

abbrev pub act_found :
    ℕ
    → String
    → ScheduleAction
    → Option ScheduleRecord
    → ScheduleStore
    → ScheduleStore × ScheduleReply
act_found now id action none s = (s, not_found)
act_found now id action (some r) s =
    let (s', updated) = update_schedule now id (with_status (status_after action)) s in
    (s', schedule 200 updated)

-- `handleScheduleAction`
unfoldable pub handle_schedule_action :
    ℕ → Option String → String → ScheduleAction → ScheduleStore → ScheduleStore × ScheduleReply
unfolding can_access_schedule update_schedule
handle_schedule_action now owner id action s =
    if can_access_schedule owner id s then act_found now id action (get id s) s else (s, not_found)

-- The requests of an authenticated owner that change schedules.
pub data ScheduleRequest : Type 0 where
  creation : Draw → String → ScheduleBody → ScheduleRequest
  change : ℕ → String → Option String → ScheduleRequest
  removal : String → ScheduleRequest
  action : ℕ → String → ScheduleAction → ScheduleRequest

abbrev pub beside :
    Directory → ScheduleStore × ScheduleReply → Directory × ScheduleStore × ScheduleReply
beside d (s, reply) = (d, s, reply)

-- The routes of the server to the handlers.
abbrev pub serve :
    (F : Floats)
    → Calendar
    → String
    → ScheduleRequest
    → Directory
    → ScheduleStore
    → Directory × ScheduleStore × ScheduleReply
serve F cal owner (creation c agent_id b) d s = handle_create_schedule F cal c owner agent_id b d s
serve F cal owner (change now id expression) d s =
    beside d (handle_update_schedule F cal now (some owner) id expression s)
serve F cal owner (removal id) d s = beside d (handle_delete_schedule (some owner) id s)
serve F cal owner (action now id act) d s =
    beside d (handle_schedule_action now (some owner) id act s)
