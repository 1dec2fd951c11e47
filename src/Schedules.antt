-- ===== src/Schedules.antt =====
-- packages/database/src/schedule-types.ts and `InMemoryScheduleStore` of
-- packages/database/src/schedule-store.ts. A patch of type `Partial<ScheduleRecord>` is the function
-- that overwrites the fields that it names.
pub mod Sqlite
pub mod Calls
pub mod Memory
pub mod Refinement
pub mod Cron
pub mod Validation
pub mod Listing
use evergent.Base.{
  ℕ, Bool, true, false, ◌&&◌, List, Option, none, some, String, filterb, take, leb, str_eq, is_some,
}
use evergent.Base.Sort.{sort}
use evergent.Base.StringMap.{StringMap, get, set, delete, values}
use evergent.Shared.{AgentIntent}

pub data ScheduleStatus : Type 0 where
  active paused disabled : ScheduleStatus

pub record ScheduleRecord : Type 0 where
  pub id : String
  pub agent_id : String
  pub owner_id : String
  pub status : ScheduleStatus
  pub intent : AgentIntent
  pub schedule_expression : String
  pub timezone : String
  pub next_run_at : ℕ
  pub last_run_at : Option ℕ
  pub created_at : ℕ
  pub updated_at : ℕ

abbrev pub is_running : ScheduleStatus → Bool
is_running active = true
is_running paused = false
is_running disabled = false

abbrev pub ScheduleStore : Type 0
ScheduleStore = StringMap ScheduleRecord

abbrev pub SchedulePatch : Type 0
SchedulePatch = ScheduleRecord → ScheduleRecord

unfoldable pub create_schedule : ScheduleRecord → ScheduleStore → ScheduleStore × ScheduleRecord
create_schedule r s = (set r.id r s, r)

-- `a.nextRunAt.localeCompare(b.nextRunAt)`
abbrev pub earliest_first : ScheduleRecord → ScheduleRecord → Bool
earliest_first a b = leb a.next_run_at b.next_run_at

unfoldable pub list_by_agent : String → ℕ → ScheduleStore → List ScheduleRecord
unfolding sort
list_by_agent agent_id limit s =
    take limit (sort earliest_first (filterb (λ r. str_eq r.agent_id agent_id) (values s)))

unfoldable pub list_by_owner : String → ℕ → ScheduleStore → List ScheduleRecord
unfolding sort
list_by_owner owner_id limit s =
    take limit (sort earliest_first (filterb (λ r. str_eq r.owner_id owner_id) (values s)))

abbrev pub is_due : ℕ → ScheduleRecord → Bool
is_due before r = is_running r.status && leb r.next_run_at before

unfoldable pub list_due : ℕ → ℕ → ScheduleStore → List ScheduleRecord
unfolding sort
list_due before limit s = take limit (sort earliest_first (filterb (is_due before) (values s)))

-- `{ ...existing, ...patch, updatedAt: new Date().toISOString() }`
abbrev pub patched : ℕ → SchedulePatch → ScheduleRecord → ScheduleRecord
patched now patch existing = record (patch existing) { updated_at = now }

unfoldable pub update_schedule :
    ℕ → String → SchedulePatch → ScheduleStore → ScheduleStore × Option ScheduleRecord
update_schedule now id patch s = elim (get id s) [
  | none ↦ (s, none)
  | some existing ↦ (set id (patched now patch existing) s, some (patched now patch existing))
]

unfoldable pub delete_schedule : String → ScheduleStore → ScheduleStore × Bool
delete_schedule id s = (delete id s, is_some (get id s))
