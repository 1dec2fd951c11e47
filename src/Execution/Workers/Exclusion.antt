-- ===== src/Execution/Workers/Exclusion.antt =====
-- No two workers run the same record at the same time.
use evergent.Base.{
  ℕ, ◌≡◌, refl, sym, subst, ◌∙◌, ap, ◌≢◌, ◌⊎◌, inl, inr, true, ◌||◌, List, [], ◌∷◌, none, some,
  String, arith, All, Bool-cases,
}
use evergent.Base.StringMap.{get, set, get-set_self, get-set_ne}
use evergent.Execution.{ExecutionStatus, queued, executing, failed, ExecutionRecord, is_status}
use evergent.Execution.Store.{Store, Patch, patched, update_if_status}
use evergent.Execution.Store.Laws.{get-update_if_status_ne, update_if_status-cases, is_status→eq}
use evergent.Execution.Queue.{enqueue, claim, claim_patch}

abbrev pub IsExecuting : Store → ExecutionRecord → Type 0
IsExecuting s r = (e : ExecutionRecord) × (get r.id s ≡ some e) × (e.status ≡ executing)

abbrev pub IsOther : String → ExecutionRecord → Type 0
IsOther id r = r.id ≢ id

-- The claimed records are stored as executing, and are different records.
abbrev pub IsExclusive : Store → List ExecutionRecord → Type 0
IsExclusive s [] = Unit
IsExclusive s (r ∷ rs) = IsExecuting s r × All (IsOther r.id) rs × IsExclusive s rs

-- A write under one id keeps the claims of the other records.
pub IsExclusive-frame :
    (s t : Store) (id : String) (rs : List ExecutionRecord)
    → ((j : String) → id ≢ j → get j t ≡ get j s)
    → All (IsOther id) rs
    → IsExclusive s rs
    → IsExclusive t rs
IsExclusive-frame s t id [] same others h = tt
IsExclusive-frame s t id (r ∷ rs) same others ((e, at, runs), distinct, h) = (
  (e, same r.id (λ q. others.0 (sym q)) ∙ at, runs),
  distinct,
  IsExclusive-frame s t id rs same others.1 h,
)

-- A record that is stored with another status, or not at all, is not claimed.
IsOther-of_calm :
    (s : Store) (id : String) (rs : List ExecutionRecord)
    → ((e : ExecutionRecord) → get id s ≡ some e → e.status ≢ executing)
    → IsExclusive s rs
    → All (IsOther id) rs
IsOther-of_calm s id [] calm h = tt
IsOther-of_calm s id (r ∷ rs) calm ((e, at, runs), distinct, h) =
    ((λ q. calm e (ap (λ k. get k s) (sym q) ∙ at) runs), IsOther-of_calm s id rs calm h)

status_unique :
    (id : String) (s : Store) (e y : ExecutionRecord)
    → get id s ≡ some e
    → get id s ≡ some y
    → e.status ≡ y.status
status_unique id s e y at at_y = cc

ne_executing : (x : ExecutionStatus) → (x ≡ queued) ⊎ (x ≡ failed) → x ≡ executing → ⊥
ne_executing x (inl q) e = cc
ne_executing x (inr q) e = cc

-- A conditional write that expects another status than `executing` keeps the claims.
pub update_if_status-IsExclusive :
    (id : String) (x : ExecutionStatus) (patch : Patch) (s : Store) (rs : List ExecutionRecord)
    → x ≢ executing
    → IsExclusive s rs
    → IsExclusive (update_if_status id x patch s).0 rs
update_if_status-IsExclusive id x patch s rs ne h = elim (update_if_status-cases id x patch s) [
  | inr eq ↦ rw eq h
  | inl (e, at, same, eq) ↦
      IsExclusive-frame s (update_if_status id x patch s).0 id rs
        (λ j d. get-update_if_status_ne j id x patch s d)
        (IsOther-of_calm s id rs
          (λ y at_y runs. ne (sym same ∙ status_unique id s e y at at_y ∙ runs)) h)
        h
]

pub enqueue-IsExclusive :
    (r : ExecutionRecord) (s : Store) (rs : List ExecutionRecord)
    → get r.id s ≡ none
    → IsExclusive s rs
    → IsExclusive (enqueue r s) rs
unfolding enqueue
enqueue-IsExclusive r s rs fresh h =
    IsExclusive-frame s (set r.id r s) r.id rs (λ j d. get-set_ne j r.id r s d)
      (IsOther-of_calm s r.id rs (λ e at runs. cc) h) h

-- A claim is won only for a record that is stored with the status of the worker's copy, `queued` or
-- `failed`, and stores it as executing.
pub claim_won :
    (r : ExecutionRecord) (now : ℕ) (s : Store)
    → (claim r now s).1 ≡ true
    → (e : ExecutionRecord) × (get r.id s ≡ some e)
      × (e.status ≡ r.status)
      × ((r.status ≡ queued) ⊎ (r.status ≡ failed))
      × ((claim r now s).0 ≡ set r.id (patched (claim_patch now) e) s)
unfolding claim
claim_won r now s won = elim (Bool-cases (is_status r.status queued || is_status r.status failed)) [
  | inr idle ↦ absurd (ground (arith, idle))
  | inl due ↦ elim (update_if_status-cases r.id r.status (claim_patch now) s) [
    | inr eq ↦ absurd (ground (arith, eq, due))
    | inl (e, at, same, eq) ↦ (
      e,
      at,
      same,
      ground (arith, is_status→eq r.status queued, is_status→eq r.status failed),
      rw due (rw eq refl),
    )
  ]
]

pub claim-IsExclusive :
    (r : ExecutionRecord) (now : ℕ) (s : Store) (rs : List ExecutionRecord)
    → (claim r now s).1 ≡ true
    → IsExclusive s rs
    → IsExclusive (claim r now s).0 (r ∷ rs)
claim-IsExclusive r now s rs won h =
    let (e, at, same, due, eq) = claim_won r now s won in
    let others =
      IsOther-of_calm s r.id rs
        (λ y at_y runs.
          ne_executing r.status due (sym same ∙ status_unique r.id s e y at at_y ∙ runs))
        h in
    let claimed = patched (claim_patch now) e in
    subst (λ t. IsExclusive t (r ∷ rs)) (sym eq)
      (
        (claimed, get-set_self r.id claimed s, refl),
        others,
        IsExclusive-frame s (set r.id claimed s) r.id rs (λ j d. get-set_ne j r.id claimed s d)
            others h,
      )
