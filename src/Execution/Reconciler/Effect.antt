-- ===== src/Execution/Reconciler/Effect.antt =====
-- What a reconciliation pass does to every record of the store.
use evergent.Base.{
  ℕ, ◌≤◌, ◌≡◌, refl, ◌∙◌, ap, ◌≢◌, inl, inr, true, false, ◌&&◌, List, [], ◌∷◌, Option, none, some,
  String, arith, Bool-cases, if◌then◌else◌, All, All-map, length, get_or_else,
}
use evergent.Base.Text.{is_given}
use evergent.Base.StringMap.{get}
use evergent.Execution.{ExecutionStatus, submitted, ExecutionRecord, is_status}
use evergent.Execution.Store.{Store, update_if_status, list_submitted, max_limit}
use evergent.Execution.Store.Laws.{IsWellFormed, get-update_if_status_ne, get-update_if_status_self}
use evergent.Execution.Store.Listing.{list_submitted-IsStored, list_submitted-listed, submitted_in}
use evergent.Execution.Sweep.{listed, sweep, AgreesAt, IsLocal, get-sweep}
use evergent.Execution.Reconciler.{
  TransactionStatus, confirmed, failed, not_found, network_error, raises, ReconciliationResult,
  confirm_patch, fail_patch, count_confirmed, count_failed, apply_status, reconcile_one,
  reconcile_records, reconcile,
}

-- What an answer makes of a submitted record.
abbrev pub settle : TransactionStatus → ℕ → ExecutionRecord → ExecutionRecord
settle confirmed now e = record e {
  status = ExecutionStatus.confirmed;
  completed_at = some now;
  updated_at = now;
}
settle failed now e = record e {
  status = ExecutionStatus.failed;
  error = some "Transaction failed on-chain";
  updated_at = now;
}
settle not_found now e = e
settle network_error now e = e
settle raises now e = e

-- What a pass makes of a record: one that is submitted, and has a transaction hash, is settled by
-- the answer for its hash; any other stays as it is.
abbrev pub reconciled : (String → TransactionStatus) → ℕ → ExecutionRecord → ExecutionRecord
reconciled get_status now e =
    if is_status e.status submitted && is_given e.tx_hash
    then settle (get_status (get_or_else e.tx_hash "")) now e
    else e

abbrev SameHash : ExecutionRecord → ExecutionRecord → Type 0
SameHash r e = r.tx_hash ≡ e.tx_hash

pub count_confirmed_store :
    (p : Store × Option ExecutionRecord) (c : ReconciliationResult) → (count_confirmed p c).0 ≡ p.0
count_confirmed_store (s, none) c = refl
count_confirmed_store (s, some r) c = refl

pub count_failed_store :
    (p : Store × Option ExecutionRecord) (c : ReconciliationResult) → (count_failed p c).0 ≡ p.0
count_failed_store (s, none) c = refl
count_failed_store (s, some r) c = refl

apply_status-hit :
    (a : TransactionStatus) (now : ℕ) (id : String) (e : ExecutionRecord)
    (st : Store × ReconciliationResult)
    → get id st.0 ≡ some e
    → get id (apply_status a id now st).0
      ≡ some (if is_status e.status submitted then settle a now e else e)
apply_status-hit confirmed now id e (s, c) at =
    ap (get id) (count_confirmed_store (update_if_status id submitted (confirm_patch now) s) c)
    ∙ get-update_if_status_self id submitted (confirm_patch now) s e at
apply_status-hit failed now id e (s, c) at =
    ap (get id) (count_failed_store (update_if_status id submitted (fail_patch now) s) c)
    ∙ get-update_if_status_self id submitted (fail_patch now) s e at
apply_status-hit not_found now id e (s, c) at = at ∙ ap some (ground arith)
apply_status-hit network_error now id e (s, c) at = at ∙ ap some (ground arith)
apply_status-hit raises now id e (s, c) at = at ∙ ap some (ground arith)

apply_status-other :
    (a : TransactionStatus) (now : ℕ) (id j : String) (st : Store × ReconciliationResult)
    → id ≢ j
    → get j (apply_status a id now st).0 ≡ get j st.0
apply_status-other confirmed now id j (s, c) h =
    ap (get j) (count_confirmed_store (update_if_status id submitted (confirm_patch now) s) c)
    ∙ get-update_if_status_ne j id submitted (confirm_patch now) s h
apply_status-other failed now id j (s, c) h =
    ap (get j) (count_failed_store (update_if_status id submitted (fail_patch now) s) c)
    ∙ get-update_if_status_ne j id submitted (fail_patch now) s h
apply_status-other not_found now id j (s, c) h = refl
apply_status-other network_error now id j (s, c) h = refl
apply_status-other raises now id j (s, c) h = refl

module _ (get_status : String → TransactionStatus) (now : ℕ) where
  reconcile_one-hit :
      (r e : ExecutionRecord) (st : Store × ReconciliationResult)
      → get r.id st.0 ≡ some e
      → SameHash r e
      → get r.id (reconcile_one get_status now r st).0 ≡ some (reconciled get_status now e)
  unfolding reconcile_one
  reconcile_one-hit r e (s, c) at same = elim (Bool-cases (is_given r.tx_hash)) [
    | inl sent ↦
        let sent_e : is_given e.tx_hash ≡ true = rw (← same) sent in
        let hash : get_or_else r.tx_hash "" ≡ get_or_else e.tx_hash "" =
          ap (λ h. get_or_else h "") same in
        rw sent (
          apply_status-hit (get_status (get_or_else r.tx_hash "")) now r.id e (s, c) at
          ∙ rw (hash, sent_e) (ground arith))
    | inr unsent ↦
        let unsent_e : is_given e.tx_hash ≡ false = rw (← same) unsent in
        rw unsent (at ∙ rw unsent_e (ground arith))
  ]

  reconcile_one-other :
      (r : ExecutionRecord) (st : Store × ReconciliationResult) (j : String)
      → r.id ≢ j
      → get j (reconcile_one get_status now r st).0 ≡ get j st.0
  unfolding reconcile_one
  reconcile_one-other r (s, c) j h = elim (Bool-cases (is_given r.tx_hash)) [
    | inl sent ↦
        rw sent (apply_status-other (get_status (get_or_else r.tx_hash "")) now r.id j (s, c) h)
    | inr unsent ↦ rw unsent refl
  ]

  settle_idem :
      (a : TransactionStatus) (e : ExecutionRecord)
      → get_status (get_or_else e.tx_hash "") ≡ a
      → reconciled get_status now (settle a now e) ≡ settle a now e
  settle_idem confirmed e answer = refl
  settle_idem failed e answer = refl
  settle_idem not_found e answer = rw answer (ground arith)
  settle_idem network_error e answer = rw answer (ground arith)
  settle_idem raises e answer = rw answer (ground arith)

  settle_hash : (a : TransactionStatus) (e : ExecutionRecord) → e.tx_hash ≡ (settle a now e).tx_hash
  settle_hash confirmed e = refl
  settle_hash failed e = refl
  settle_hash not_found e = refl
  settle_hash network_error e = refl
  settle_hash raises e = refl

  reconciled_hash : (e : ExecutionRecord) → e.tx_hash ≡ (reconciled get_status now e).tx_hash
  reconciled_hash e = elim (Bool-cases (is_status e.status submitted && is_given e.tx_hash)) [
    | inl h ↦ rw h (settle_hash (get_status (get_or_else e.tx_hash "")) e)
    | inr h ↦ rw h refl
  ]

  reconciled_idem :
      (e : ExecutionRecord)
      → reconciled get_status now (reconciled get_status now e) ≡ reconciled get_status now e
  reconciled_idem e = elim (Bool-cases (is_status e.status submitted && is_given e.tx_hash)) [
    | inl h ↦ rw h (settle_idem (get_status (get_or_else e.tx_hash "")) e refl)
    | inr h ↦ rw h (rw h refl)
  ]

  reconcile_one-IsLocal :
      IsLocal (reconcile_one get_status now) (reconciled get_status now) SameHash
  reconcile_one-IsLocal = record {
    hit = reconcile_one-hit;
    other = reconcile_one-other;
    idem = reconciled_idem;
    keeps = λ r e same. same ∙ reconciled_hash e;
  }

  reconcile_records-sweep :
      (rs : List ExecutionRecord) (st : Store × ReconciliationResult)
      → reconcile_records get_status now rs st ≡ sweep (reconcile_one get_status now) rs st
  unfolding reconcile_records sweep
  reconcile_records-sweep [] st = refl
  reconcile_records-sweep (r ∷ rs) st =
      reconcile_records-sweep rs (reconcile_one get_status now r st)

  counted : Store → ReconciliationResult
  counted s = record {
    checked = length (list_submitted max_limit s);
    confirmed = 0;
    failed = 0;
    skipped = 0;
    errors = 0;
  }

  reconciled_unlisted :
      (s : Store) (j : String) (e : ExecutionRecord)
      → IsWellFormed s
      → length (submitted_in s) ≤ 200
      → get j s ≡ some e
      → (if listed j (list_submitted max_limit s) then reconciled get_status now e else e)
        ≡ reconciled get_status now e
  reconciled_unlisted s j e wf few at = elim (Bool-cases (is_status e.status submitted)) [
    | inl open_one ↦ rw (list_submitted-listed s j e wf few at open_one) refl
    | inr calm ↦ rw calm (ground arith)
  ]

  -- In a store whose keys are the ids of its records, a pass over at most 200 submitted records
  -- settles each one that has a transaction hash by the provider's answer for that hash: it becomes
  -- confirmed and completed now, or failed with the error that the transaction failed on-chain, or is
  -- left as it is where the transaction is not found, the network fails or the provider throws. Every
  -- other record is left as it is, and so are the other fields.
  pub get-reconcile :
      (s : Store) (j : String) (e : ExecutionRecord)
      → IsWellFormed s
      → length (submitted_in s) ≤ 200
      → get j s ≡ some e
      → get j (reconcile get_status now s).0 ≡ some (reconciled get_status now e)
  unfolding reconcile counted
  get-reconcile s j e wf few at =
      let subs = list_submitted max_limit s in
      let agrees : All
          (AgreesAt (reconcile_one get_status now) (reconciled get_status now) SameHash s) subs =
        All-map _ _ (λ r stored. (r, stored, refl)) subs (list_submitted-IsStored max_limit s wf) in
      rw (reconcile_records-sweep subs (s, counted s)) (
        get-sweep (reconcile_one get_status now) (reconciled get_status now) SameHash
          reconcile_one-IsLocal subs (s, counted s) j e agrees at)
      ∙ ap some (reconciled_unlisted s j e wf few at)
