-- ===== src/Execution/Store.antt =====
-- `InMemoryExecutionStore` of packages/database/src/execution-store.ts. A patch of type
-- `Partial<ExecutionRecord>` is the function that overwrites the fields that it names.
pub mod Laws
pub mod Listing
use evergent.Base.{
  ℕ, suc, min, max, Bool, true, ◌&&◌, ◌||◌, List, Option, none, some, String, filterb, take,
  if◌then◌else◌, leb, str_eq, is_some,
}
use evergent.Base.Sort.{sort}
use evergent.Base.StringMap.{StringMap, get, set, delete, values}
use evergent.Execution.{
  ExecutionStatus, queued, executing, submitted, failed, ExecutionRecord, is_status,
}

abbrev pub Store : Type 0
Store = StringMap ExecutionRecord

abbrev pub Patch : Type 0
Patch = ExecutionRecord → ExecutionRecord

abbrev pub max_limit : ℕ
max_limit = 200

unfoldable pub record_execution : ExecutionRecord → Store → Store
record_execution r s = set r.id r s

unfoldable pub get_for_owner : String → String → Store → Option ExecutionRecord
get_for_owner id owner_id s = elim (get id s) [
  | none ↦ none
  | some r ↦ if str_eq r.owner_id owner_id then some r else none
]

-- `{ ...existing, ...patch, id: existing.id }`
abbrev pub patched : Patch → ExecutionRecord → ExecutionRecord
patched patch existing = record (patch existing) { id = existing.id }

unfoldable pub update : String → Patch → Store → Store × Option ExecutionRecord
update id patch s = elim (get id s) [
  | none ↦ (s, none)
  | some existing ↦ (set id (patched patch existing) s, some (patched patch existing))
]

unfoldable pub update_if_status :
    String → ExecutionStatus → Patch → Store → Store × Option ExecutionRecord
update_if_status id expected patch s = elim (get id s) [
  | none ↦ (s, none)
  | some existing ↦
      if is_status existing.status expected
      then (set id (patched patch existing) s, some (patched patch existing))
      else (s, none)
]

unfoldable pub delete_execution : String → Store → Store × Bool
delete_execution id s = (delete id s, is_some (get id s))

-- `Math.max(1, Math.min(limit, MAX_LIMIT))`
abbrev pub safe_limit : ℕ → ℕ
safe_limit limit = max 1 (min limit max_limit)

-- The key `nextRetryAt ?? ""`: the empty string is before every timestamp.
abbrev pub retry_key : ExecutionRecord → ℕ
retry_key r = elim r.next_retry_at [ none ↦ 0 | some t ↦ suc t ]

abbrev pub is_due : ℕ → ExecutionRecord → Bool
is_due before r =
    (is_status r.status queued || is_status r.status failed)
    && elim r.next_retry_at [ none ↦ true | some t ↦ leb t before ]

abbrev pub retry_order : ExecutionRecord → ExecutionRecord → Bool
retry_order a b = leb (retry_key a) (retry_key b)

unfoldable pub list_due : ℕ → ℕ → Store → List ExecutionRecord
unfolding sort
list_due before limit s =
    take (safe_limit limit) (sort retry_order (filterb (is_due before) (values s)))

abbrev newest_first : ExecutionRecord → ExecutionRecord → Bool
newest_first a b = leb b.updated_at a.updated_at

abbrev pub oldest_first : ExecutionRecord → ExecutionRecord → Bool
oldest_first a b = leb a.created_at b.created_at

unfoldable pub list_by_owner : String → ℕ → Store → List ExecutionRecord
unfolding sort
list_by_owner owner_id limit s =
    take (safe_limit limit)
      (sort newest_first (filterb (λ r. str_eq r.owner_id owner_id) (values s)))

unfoldable pub list_by_agent : String → ℕ → Store → List ExecutionRecord
unfolding sort
list_by_agent agent_id limit s =
    take (safe_limit limit)
      (sort newest_first (filterb (λ r. str_eq r.agent_id agent_id) (values s)))

unfoldable pub list_stuck_executing : ℕ → Store → List ExecutionRecord
unfolding sort
list_stuck_executing limit s =
    take (safe_limit limit)
      (sort oldest_first (filterb (λ r. is_status r.status executing) (values s)))

unfoldable pub list_submitted : ℕ → Store → List ExecutionRecord
unfolding sort
list_submitted limit s =
    take (safe_limit limit)
      (sort oldest_first (filterb (λ r. is_status r.status submitted) (values s)))
