-- ===== src/Execution/Recovery/Effect.antt =====
-- What crash recovery does to every record of the store.
use evergent.Base.{
  ℕ, ◌≤◌, ◌≡◌, refl, sym, ◌∙◌, ap, ◌≢◌, inl, inr, Bool, true, false, ◌&&◌, not, List, [], ◌∷◌, some,
  none, String, arith, Bool-cases, if◌then◌else◌, All, All-map, length,
}
use evergent.Base.Text.{is_given}
use evergent.Base.StringMap.{get}
use evergent.Execution.{executing, failed, ExecutionRecord, is_status}
use evergent.Execution.Store.{Store, list_stuck_executing, max_limit}
use evergent.Execution.Store.Laws.{
  IsWellFormed, get-update_self, get-update_ne, update-IsWellFormed,
}
use evergent.Execution.Store.Listing.{
  list_stuck_executing-IsStored, list_stuck_executing-listed, stuck_in,
}
use evergent.Execution.Sweep.{listed, sweep, AgreesAt, IsLocal, get-sweep}
use evergent.Execution.Recovery.{
  RecoveryResult, recovery_patch, recover_one, recover_records, recover,
}

-- What recovery makes of a record: a stuck one without a transaction hash becomes a failed one that
-- is due at once, with its attempts kept; any other stays as it is.
abbrev pub recovered : ℕ → ExecutionRecord → ExecutionRecord
recovered now e =
    if is_status e.status executing && not (is_given e.tx_hash)
    then record e { status = failed; next_retry_at = some now; started_at = none; updated_at = now }
    else e

recover_one-hit :
    (now : ℕ) (r e : ExecutionRecord) (st : Store × RecoveryResult)
    → get r.id st.0 ≡ some e
    → get r.id (recover_one now r st).0 ≡ some (recovered now e)
unfolding recover_one
recover_one-hit now r e (s, c) at = elim (Bool-cases (is_status e.status executing)) [
  | inr calm ↦ rw (at, recover_one) (rw calm at)
  | inl stuck ↦ elim (Bool-cases (is_given e.tx_hash)) [
    | inl sent ↦ rw (at, recover_one) (rw stuck (rw sent at))
    | inr unsent ↦
        rw (at, recover_one)
          (rw stuck (rw unsent (rw (get-update_self r.id (recovery_patch now) s) (rw at refl))))
  ]
]

recover_one-other :
    (now : ℕ) (r : ExecutionRecord) (st : Store × RecoveryResult) (j : String)
    → r.id ≢ j
    → get j (recover_one now r st).0 ≡ get j st.0
unfolding recover_one
recover_one-other now r (s, c) j h = ground (arith, get-update_ne j r.id (recovery_patch now) s h)

recovered_idem : (now : ℕ) (e : ExecutionRecord) → recovered now (recovered now e) ≡ recovered now e
recovered_idem now e =
    elim (Bool-cases (is_status e.status executing && not (is_given e.tx_hash))) [
      | inl stuck ↦ rw stuck refl
      | inr calm ↦ rw calm (rw calm refl)
    ]

abbrev Anything : ExecutionRecord → ExecutionRecord → Type 0
Anything r e = Unit {0}

recover_one-IsLocal : (now : ℕ) → IsLocal (recover_one now) (recovered now) Anything
recover_one-IsLocal now = record {
  hit = λ r e st at agrees. recover_one-hit now r e st at;
  other = recover_one-other now;
  idem = recovered_idem now;
  keeps = λ r e agrees. tt;
}

recover_records-sweep :
    (now : ℕ) (rs : List ExecutionRecord) (st : Store × RecoveryResult)
    → recover_records now rs st ≡ sweep (recover_one now) rs st
unfolding recover_records sweep
recover_records-sweep now [] st = refl
recover_records-sweep now (r ∷ rs) st = recover_records-sweep now rs (recover_one now r st)

recovered_unlisted :
    (now : ℕ) (s : Store) (j : String) (e : ExecutionRecord)
    → IsWellFormed s
    → length (stuck_in s) ≤ 200
    → get j s ≡ some e
    → (if listed j (list_stuck_executing max_limit s) then recovered now e else e) ≡ recovered now e
recovered_unlisted now s j e wf few at = elim (Bool-cases (is_status e.status executing)) [
  | inl stuck ↦ rw (list_stuck_executing-listed s j e wf few at stuck) refl
  | inr calm ↦ rw calm (ground arith)
]

abbrev counted : Store → RecoveryResult
counted s = record {
  found = length (list_stuck_executing max_limit s);
  recovered = 0;
  recovered_ids = [];
  skipped = 0;
}

-- In a store whose keys are the ids of its records, with at most 200 records executing, recovery
-- rewrites each executing record that has no transaction hash to a failed one whose retry time is now,
-- with no start time, its attempts and its other fields kept, and leaves every other record as it is.
pub get-recover :
    (now : ℕ) (s : Store) (j : String) (e : ExecutionRecord)
    → IsWellFormed s
    → length (stuck_in s) ≤ 200
    → get j s ≡ some e
    → get j (recover now s).0 ≡ some (recovered now e)
unfolding recover
get-recover now s j e wf few at =
    let stuck = list_stuck_executing max_limit s in
    let agrees : All (AgreesAt (recover_one now) (recovered now) Anything s) stuck =
      All-map _ _ (λ r stored. (r, stored, tt)) stuck
        (list_stuck_executing-IsStored max_limit s wf) in
    rw (recover_records-sweep now stuck (s, counted s)) (
      get-sweep (recover_one now) (recovered now) Anything (recover_one-IsLocal now) stuck
        (s, counted s) j e agrees at)
    ∙ ap some (recovered_unlisted now s j e wf few at)

recover_one-IsWellFormed :
    (now : ℕ) (r : ExecutionRecord) (st : Store × RecoveryResult)
    → IsWellFormed st.0
    → IsWellFormed (recover_one now r st).0
unfolding recover_one
recover_one-IsWellFormed now r (s, c) wf =
    ground (arith, update-IsWellFormed r.id (recovery_patch now) s wf)

recover_records-IsWellFormed :
    (now : ℕ) (rs : List ExecutionRecord) (st : Store × RecoveryResult)
    → IsWellFormed st.0
    → IsWellFormed (recover_records now rs st).0
unfolding recover_records
recover_records-IsWellFormed now [] st wf = wf
recover_records-IsWellFormed now (r ∷ rs) st wf =
    recover_records-IsWellFormed now rs (recover_one now r st)
      (recover_one-IsWellFormed now r st wf)

pub recover-IsWellFormed : (now : ℕ) (s : Store) → IsWellFormed s → IsWellFormed (recover now s).0
unfolding recover
recover-IsWellFormed now s wf =
    recover_records-IsWellFormed now (list_stuck_executing max_limit s) (s, counted s) wf

recovered_twice :
    (now later : ℕ) (e : ExecutionRecord) → recovered later (recovered now e) ≡ recovered now e
recovered_twice now later e =
    elim (Bool-cases (is_status e.status executing && not (is_given e.tx_hash))) [
      | inl stuck ↦ rw stuck refl
      | inr calm ↦ rw calm (rw calm refl)
    ]

if_same : (b : Bool) (x e : ExecutionRecord) → x ≡ e → (if b then x else e) ≡ e
if_same true x e same = same
if_same false x e same = refl

get-recover_any :
    (now : ℕ) (s : Store) (j : String) (e : ExecutionRecord)
    → IsWellFormed s
    → get j s ≡ some e
    → recovered now e ≡ e
    → get j (recover now s).0 ≡ some e
unfolding recover
get-recover_any now s j e wf at same =
    let stuck = list_stuck_executing max_limit s in
    let agrees : All (AgreesAt (recover_one now) (recovered now) Anything s) stuck =
      All-map _ _ (λ r stored. (r, stored, tt)) stuck
        (list_stuck_executing-IsStored max_limit s wf) in
    rw (recover_records-sweep now stuck (s, counted s)) (
      get-sweep (recover_one now) (recovered now) Anything (recover_one-IsLocal now) stuck
        (s, counted s) j e agrees at)
    ∙ ap some (if_same (listed j stuck) _ e same)

-- In a store whose keys are the ids of its records, with at most 200 records executing, a second
-- recovery changes no stored record, whenever it runs.
pub recover_twice :
    (now later : ℕ) (s : Store) (j : String) (e : ExecutionRecord)
    → IsWellFormed s
    → length (stuck_in s) ≤ 200
    → get j s ≡ some e
    → get j (recover later (recover now s).0).0 ≡ get j (recover now s).0
recover_twice now later s j e wf few at =
    let once = get-recover now s j e wf few at in
    let again =
      get-recover_any later (recover now s).0 j (recovered now e) (recover-IsWellFormed now s wf)
        once (recovered_twice now later e) in
    again ∙ sym once
