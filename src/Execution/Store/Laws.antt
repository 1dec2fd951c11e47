-- ===== src/Execution/Store/Laws.antt =====
-- What each write of the execution store does to the record under every id, and that the store
-- keeps each record under the record's own id.
use text.Mathlib.TextPositions.{eq_refl}
use evergent.Base.{
  ◌≡◌, refl, ◌≢◌, ◌⊎◌, inl, inr, true, Option, none, some, String, if◌then◌else◌, str_eq, eq_iff,
  arith, Bool-cases, Option-cases,
}
use evergent.Base.StringMap.{
  get, set, get-set, get-set_self, IsKeyed, IsKeyed-set, IsKeyed-delete, get-IsKeyed,
}
use evergent.Execution.{
  ExecutionStatus, queued, executing, submitted, confirmed, failed, dead_letter, ExecutionRecord,
  is_status,
}
use evergent.Execution.Store.{
  Store, Patch, patched, record_execution, update, update_if_status, delete_execution,
}

pub is_status→eq : (a b : ExecutionStatus) → is_status a b ≡ true → a ≡ b
is_status→eq queued b h = ground arith
is_status→eq executing b h = ground arith
is_status→eq submitted b h = ground arith
is_status→eq confirmed b h = ground arith
is_status→eq failed b h = ground arith
is_status→eq dead_letter b h = ground arith

pub is_status_self : (a : ExecutionStatus) → is_status a a ≡ true
is_status_self a = ground arith

abbrev pub patches : Option ExecutionRecord → Patch → Option ExecutionRecord
patches none patch = none
patches (some e) patch = some (patched patch e)

pub get-update :
    (j id : String) (patch : Patch) (s : Store)
    → get j (update id patch s).0 ≡ (if str_eq id j then patches (get id s) patch else get j s)
unfolding update
get-update j id patch s = elim (Option-cases (get id s)) [
  | inl e ↦ rw (e, update) (ground (arith, eq_iff id j))
  | inr (x, e) ↦ rw (e, update) (get-set j id (patched patch x) s)
]

pub get-update_self :
    (id : String) (patch : Patch) (s : Store)
    → get id (update id patch s).0 ≡ patches (get id s) patch
get-update_self id patch s = ground (arith, get-update id id patch s, eq_refl id)

pub get-update_ne :
    (j id : String) (patch : Patch) (s : Store) → id ≢ j → get j (update id patch s).0 ≡ get j s
get-update_ne j id patch s h = ground (arith, get-update j id patch s, eq_iff id j)

-- A conditional write succeeds exactly on the expected status, and otherwise changes nothing.
pub update_if_status-won :
    (id : String) (x : ExecutionStatus) (patch : Patch) (s : Store) (e : ExecutionRecord)
    → get id s ≡ some e
    → e.status ≡ x
    → update_if_status id x patch s ≡ (set id (patched patch e) s, some (patched patch e))
unfolding update_if_status
update_if_status-won id x patch s e found same =
    rw (found, update_if_status) (ground (arith, is_status_self x))

pub update_if_status-lost :
    (id : String) (x : ExecutionStatus) (patch : Patch) (s : Store)
    → (update_if_status id x patch s).1 ≡ none
    → (update_if_status id x patch s).0 ≡ s
unfolding update_if_status
update_if_status-lost id x patch s h = ground arith

-- Either the record has the expected status and is patched, or the store stays as it is.
pub update_if_status-cases :
    (id : String) (x : ExecutionStatus) (patch : Patch) (s : Store)
    → ((e : ExecutionRecord) × (get id s ≡ some e)
        × (e.status ≡ x)
        × (update_if_status id x patch s ≡ (set id (patched patch e) s, some (patched patch e))))
      ⊎ (update_if_status id x patch s ≡ (s, none))
unfolding update_if_status
update_if_status-cases id x patch s = elim (Option-cases (get id s)) [
  | inl e ↦ inr (rw (e, update_if_status))
  | inr (r, e) ↦ elim (Bool-cases (is_status r.status x)) [
    | inl same ↦ inl (r, e, is_status→eq r.status x same, rw (e, update_if_status) (rw same refl))
    | inr other ↦ inr (rw (e, update_if_status) (rw other refl))
  ]
]

pub get-update_if_status_self :
    (id : String) (x : ExecutionStatus) (patch : Patch) (s : Store) (e : ExecutionRecord)
    → get id s ≡ some e
    → get id (update_if_status id x patch s).0
      ≡ some (if is_status e.status x then patched patch e else e)
unfolding update_if_status
get-update_if_status_self id x patch s e found = elim (Bool-cases (is_status e.status x)) [
  | inl same ↦ rw (found, update_if_status) (rw same (get-set_self id (patched patch e) s))
  | inr other ↦ rw (found, update_if_status) (rw other found)
]

pub get-update_if_status_ne :
    (j id : String) (x : ExecutionStatus) (patch : Patch) (s : Store)
    → id ≢ j
    → get j (update_if_status id x patch s).0 ≡ get j s
get-update_if_status_ne j id x patch s h = elim (update_if_status-cases id x patch s) [
  | inl (e, found, same, eq) ↦ rw eq (ground (arith, get-set j id (patched patch e) s, eq_iff id j))
  | inr eq ↦ rw eq refl
]

abbrev pub IsWellFormed : Store → Type 0
IsWellFormed = IsKeyed (λ r. r.id)

pub update-IsWellFormed :
    (id : String) (patch : Patch) (s : Store) → IsWellFormed s → IsWellFormed (update id patch s).0
unfolding update
update-IsWellFormed id patch s h = elim (Option-cases (get id s)) [
  | inl e ↦ rw (e, update) h
  | inr (x, e) ↦
      rw (e, update)
        (IsKeyed-set (λ r. r.id) id (patched patch x) s (get-IsKeyed (λ r. r.id) id x s h e) h)
]

pub update_if_status-IsWellFormed :
    (id : String) (x : ExecutionStatus) (patch : Patch) (s : Store)
    → IsWellFormed s
    → IsWellFormed (update_if_status id x patch s).0
update_if_status-IsWellFormed id x patch s h = elim (update_if_status-cases id x patch s) [
  | inl (e, found, same, eq) ↦
      rw eq
        (IsKeyed-set (λ r. r.id) id (patched patch e) s (get-IsKeyed (λ r. r.id) id e s h found) h)
  | inr eq ↦ rw eq h
]

pub record_execution-IsWellFormed :
    (r : ExecutionRecord) (s : Store) → IsWellFormed s → IsWellFormed (record_execution r s)
unfolding record_execution
record_execution-IsWellFormed r s h = IsKeyed-set (λ x. x.id) r.id r s refl h

pub delete_execution-IsWellFormed :
    (id : String) (s : Store) → IsWellFormed s → IsWellFormed (delete_execution id s).0
unfolding delete_execution
delete_execution-IsWellFormed id s h = IsKeyed-delete (λ x. x.id) id s h
