-- ===== src/Activity/Idempotency.antt =====
-- One record for each idempotency key of an owner and an agent.
use text.Mathlib.TextPositions.{eq_refl}
use evergent.Base.{
  ◌≡◌, refl, ◌∙◌, inl, inr, Bool, true, false, List, [], ◌∷◌, none, some, String, arith, Bool-cases,
  Option-cases,
}
use mathlib.Core.Path.{ap₂}
use evergent.Base.Floats.{Floats}
use evergent.Base.StringMap.{StringMap, set, values}
use evergent.Shared.{ActivityRecord}
use evergent.Activity.{ActivityStore, find, has_key, get_by_idempotency_key, record_idempotent}

-- Setting a record that passes a test, in a map where none did, makes it the one that is found.
find-set :
    (p : ActivityRecord → Bool) (id : String) (r : ActivityRecord) (m : StringMap ActivityRecord)
    → find p (values m) ≡ none
    → p r ≡ true
    → find p (values (set id r m)) ≡ some r
unfolding set
find-set p id r [] missing hit = rw hit refl
find-set p id r ((k, w) ∷ m) missing hit = ground (arith, find-set p id r m)

find_passes :
    (p : ActivityRecord → Bool) (xs : List ActivityRecord) (x : ActivityRecord)
    → find p xs ≡ some x
    → p x ≡ true
find_passes p [] x h = cc
find_passes p (y ∷ ys) x h = elim (Bool-cases (p y)) [
  | inl e ↦ ground (arith, e)
  | inr e ↦ find_passes p ys x (ground (arith, e))
]

module _ (F : Floats) where
  -- Whatever `recordIdempotent` returns is what the key then leads to, and belongs to the owner and
  -- the agent of the request.
  pub record_idempotent-get :
      (key : String) (r : ActivityRecord) (s : ActivityStore F)
      → let (s', x, created) = record_idempotent F key r s in
        (get_by_idempotency_key F r.owner_id r.agent_id key s' ≡ some x)
        × (has_key r.owner_id r.agent_id key x ≡ true)
  unfolding record_idempotent
  record_idempotent-get key r s =
      elim (Option-cases (get_by_idempotency_key F r.owner_id r.agent_id key s)) [
        | inr (x, e) ↦
            rw (e, record_idempotent)
              (e, find_passes (has_key r.owner_id r.agent_id key) (values s.records) x e)
        | inl e ↦
            let keyed = record r { idempotency_key = some key } in
            let hit : has_key r.owner_id r.agent_id key keyed ≡ true = simp eq_refl in
            rw (e, record_idempotent)
              (find-set (has_key r.owner_id r.agent_id key) r.id keyed s.records e hit, hit)
      ]

  record_idempotent-known :
      (key : String) (r x : ActivityRecord) (s : ActivityStore F)
      → get_by_idempotency_key F r.owner_id r.agent_id key s ≡ some x
      → record_idempotent F key r s ≡ (s, x, false)
  unfolding record_idempotent
  record_idempotent-known key r x s e = rw (e, record_idempotent) refl

  -- A second request with the same key, owner and agent, whatever else it holds, creates nothing:
  -- it returns the record of the first and leaves the store as it is.
  pub record_idempotent_twice :
      (key : String) (r later : ActivityRecord) (s : ActivityStore F)
      → later.owner_id ≡ r.owner_id
      → later.agent_id ≡ r.agent_id
      → let (s', x, created) = record_idempotent F key r s in
        record_idempotent F key later s' ≡ (s', x, false)
  record_idempotent_twice key r later s owner agent =
      let (s', x, created) = record_idempotent F key r s in
      let found = (record_idempotent-get key r s).0 in
      record_idempotent-known key later x s'
        (ap₂ (λ o a. get_by_idempotency_key F o a key s') owner agent ∙ found)
