-- ===== src/Activity.antt =====
-- `InMemoryActivityStore` of packages/database/src/index.ts: the activity log, with idempotency keys
-- and the reservation of daily spending. Both promise chains make their read and write one step, so
-- each is one function here. The day is that of the clock, as the first ten characters of its ISO
-- string.
pub mod Spending
pub mod Idempotency
use evergent.Base.{
  ℕ, Bool, true, false, ◌&&◌, ◌||◌, List, [], ◌∷◌, Option, none, some, String, filterb, take, leb,
  if◌then◌else◌, str_eq, get_or_else,
}
use evergent.Base.Floats.{Floats}
use evergent.Base.Sort.{sort}
use evergent.Base.Text.{◌<>◌}
use evergent.Base.StringMap.{StringMap, get, set, values}
use evergent.Shared.{
  ActivityRecord, ActivityStatus, pending, rejected, requires_approval, approved, signed, submitted,
  failed, AgentIntent, PolicyDecision,
}

abbrev pub is_activity_status : ActivityStatus → ActivityStatus → Bool
is_activity_status pending pending = true
is_activity_status rejected rejected = true
is_activity_status requires_approval requires_approval = true
is_activity_status approved approved = true
is_activity_status signed signed = true
is_activity_status submitted submitted = true
is_activity_status failed failed = true
is_activity_status _ _ = false

-- `createActivity`, with the random id and the clock's time as arguments
abbrev pub create_activity :
    String → ℕ → String → String → AgentIntent → PolicyDecision → Option String → ActivityRecord
create_activity id now agent_id owner_id intent decision key = record {
  id = id;
  agent_id = agent_id;
  owner_id = owner_id;
  idempotency_key = key;
  intent = intent;
  policy_decision = decision;
  authorization_status = none;
  simulation_result = none;
  tx_hash = none;
  status = pending;
  error = none;
  created_at = now;
  updated_at = now;
}

abbrev newest_first : ActivityRecord → ActivityRecord → Bool
newest_first a b = leb b.created_at a.created_at

abbrev pub key_matches : Option String → String → Bool
key_matches none key = false
key_matches (some k) key = str_eq k key

-- The test of `getByIdempotencyKey`.
abbrev pub has_key : String → String → String → ActivityRecord → Bool
has_key owner_id agent_id key r =
    str_eq r.owner_id owner_id && (str_eq r.agent_id agent_id && key_matches r.idempotency_key key)

abbrev pub find {ℓ} : {A : Type ℓ} → (A → Bool) → List A → Option A
find p [] = none
find p (x ∷ xs) = if p x then some x else find p xs

-- `${agentId}:${asset}:${day}`
abbrev pub map_key : String → String → String → String
map_key agent_id asset day = agent_id <> ":" <> asset <> ":" <> day

module _ (F : Floats) where
  pub record ActivityStore : Type 0 where
    pub records : StringMap ActivityRecord
    pub daily_spending : StringMap F.Float

  unfoldable pub record_activity : ActivityRecord → ActivityStore → ActivityStore
  record_activity r s = record s { records = set r.id r s.records }

  unfoldable pub get_activity : String → ActivityStore → Option ActivityRecord
  get_activity id s = get id s.records

  unfoldable pub list_by_agent : String → ℕ → ActivityStore → List ActivityRecord
  unfolding sort
  list_by_agent agent_id limit s =
      take limit (sort newest_first (filterb (λ r. str_eq r.agent_id agent_id) (values s.records)))

  unfoldable pub list_by_status : String → ActivityStatus → ℕ → ActivityStore → List ActivityRecord
  unfolding sort
  list_by_status agent_id status limit s = take limit (
      sort newest_first (
        filterb (λ r. str_eq r.agent_id agent_id && is_activity_status r.status status)
          (values s.records)))

  unfoldable pub list_all : ℕ → ActivityStore → List ActivityRecord
  unfolding sort
  list_all limit s = take limit (sort newest_first (values s.records))

  unfoldable pub list_by_owner : String → ℕ → ActivityStore → List ActivityRecord
  unfolding sort
  list_by_owner owner_id limit s =
      take limit (sort newest_first (filterb (λ r. str_eq r.owner_id owner_id) (values s.records)))

  unfoldable pub get_for_owner : String → String → ActivityStore → Option ActivityRecord
  get_for_owner id owner_id s = elim (get id s.records) [
    | none ↦ none
    | some r ↦ if str_eq r.owner_id owner_id then some r else none
  ]

  unfoldable pub get_by_idempotency_key :
      String → String → String → ActivityStore → Option ActivityRecord
  get_by_idempotency_key owner_id agent_id key s =
      find (has_key owner_id agent_id key) (values s.records)

  -- The record, and whether it was created.
  unfoldable pub record_idempotent :
      String → ActivityRecord → ActivityStore → ActivityStore × ActivityRecord × Bool
  unfolding get_by_idempotency_key
  record_idempotent key r s = elim (get_by_idempotency_key r.owner_id r.agent_id key s) [
    | some existing ↦ (s, existing, false)
    | none ↦
        let keyed = record r { idempotency_key = some key } in
        (record s { records = set r.id keyed s.records }, keyed, true)
  ]

  unfoldable pub reserve_daily_spending :
      String → String → String → String → String → ActivityStore → ActivityStore × Bool
  reserve_daily_spending day agent_id asset amount limit s =
      let amount_num = F.parse_float amount in
      let limit_num = F.parse_float limit in
      let key = map_key agent_id asset day in
      let current = get_or_else (get key s.daily_spending) F.zero in
      let total = F.add current amount_num in
      if F.is_nan amount_num || F.is_nan limit_num
      then (s, false)
      else if F.lt limit_num total
      then (s, false)
      else (record s { daily_spending = set key total s.daily_spending }, true)

  unfoldable pub update_activity :
      String
      → (ActivityRecord → ActivityRecord)
      → ℕ
      → ActivityStore
      → ActivityStore × Option ActivityRecord
  update_activity id patch now s = elim (get id s.records) [
    | none ↦ (s, none)
    | some existing ↦
        let updated = record (patch existing) { updated_at = now } in
        (record s { records = set id updated s.records }, some updated)
  ]
