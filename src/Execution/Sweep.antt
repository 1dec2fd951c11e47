-- ===== src/Execution/Sweep.antt =====
-- A pass over a list of records that rewrites each of them in the store: the loops of crash recovery
-- and of reconciliation. `step` rewrites the listed record's own entry by `f`, whatever it counts
-- beside it, and `Agrees` is what the listed record still tells of the stored one.
use evergent.Base.{
  ◌≡◌, sym, subst, ◌∙◌, ap, ◌≢◌, inl, inr, Bool, List, [], ◌∷◌, some, String, All, any, arith,
  Bool-cases, if◌then◌else◌, str_eq, eq_iff,
}
use evergent.Base.StringMap.{get}
use evergent.Execution.{ExecutionRecord}
use evergent.Execution.Store.{Store}

abbrev pub listed : String → List ExecutionRecord → Bool
listed j rs = any (λ r. str_eq r.id j) rs

module _ {C : Type 0} (step : ExecutionRecord → Store × C → Store × C) where
  unfoldable pub sweep : List ExecutionRecord → Store × C → Store × C
  sweep [] st = st
  sweep (r ∷ rs) st = sweep rs (step r st)

  module _ (f : ExecutionRecord → ExecutionRecord)
      (Agrees : ExecutionRecord → ExecutionRecord → Type 0) where
    abbrev pub AgreesAt : Store → ExecutionRecord → Type 0
    AgreesAt s r = (e : ExecutionRecord) × (get r.id s ≡ some e) × Agrees r e

    pub record IsLocal : Type 0 where
      pub hit :
          (r e : ExecutionRecord) (st : Store × C)
          → get r.id st.0 ≡ some e
          → Agrees r e
          → get r.id (step r st).0 ≡ some (f e)
      pub other :
          (r : ExecutionRecord) (st : Store × C) (j : String)
          → r.id ≢ j
          → get j (step r st).0 ≡ get j st.0
      pub idem : (e : ExecutionRecord) → f (f e) ≡ f e
      pub keeps : (r e : ExecutionRecord) → Agrees r e → Agrees r (f e)

    module _ (local : IsLocal) where
      step-AgreesAt :
          (r x : ExecutionRecord) (st : Store × C)
          → AgreesAt st.0 r
          → AgreesAt st.0 x
          → AgreesAt (step r st).0 x
      step-AgreesAt r x st (e, at, agrees) (y, at_x, agrees_x) =
          elim (Bool-cases (str_eq r.id x.id)) [
            | inl same ↦
                let here : r.id ≡ x.id = (eq_iff r.id x.id).0 same in
                let value : e ≡ y = ground (arith, sym at ∙ ap (λ k. get k st.0) here ∙ at_x) in
                (
                  f e,
                  ap (λ k. get k (step r st).0) (sym here) ∙ local.hit r e st at agrees,
                  local.keeps x e (rw value agrees_x),
                )
            | inr differs ↦
                (y, local.other r st x.id (ground (arith, eq_iff r.id x.id)) ∙ at_x, agrees_x)
          ]

      step-AgreesAt-All :
          (r : ExecutionRecord) (rs : List ExecutionRecord) (st : Store × C)
          → AgreesAt st.0 r
          → All (AgreesAt st.0) rs
          → All (AgreesAt (step r st).0) rs
      step-AgreesAt-All r [] st a h = tt
      step-AgreesAt-All r (x ∷ rs) st a h =
          (step-AgreesAt r x st a h.0, step-AgreesAt-All r rs st a h.1)

      -- After the pass the entry under `j` is rewritten exactly if it was listed.
      pub get-sweep :
          (rs : List ExecutionRecord) (st : Store × C) (j : String) (e : ExecutionRecord)
          → All (AgreesAt st.0) rs
          → get j st.0 ≡ some e
          → get j (sweep rs st).0 ≡ some (if listed j rs then f e else e)
      unfolding sweep
      get-sweep [] st j e h at = at
      get-sweep (r ∷ rs) st j e h at = elim (Bool-cases (str_eq r.id j)) [
        | inl same ↦
            let here : r.id ≡ j = (eq_iff r.id j).0 same in
            let value : h.0.0 ≡ e = ground (arith, sym h.0.1 ∙ ap (λ k. get k st.0) here ∙ at) in
            let now : get j (step r st).0 ≡ some (f e) =
              ap (λ k. get k (step r st).0) (sym here)
              ∙ local.hit r e st (ap (λ k. get k st.0) here ∙ at) (subst (Agrees r) value h.0.2) in
            let rest = get-sweep rs (step r st) j (f e) (step-AgreesAt-All r rs st h.0 h.1) now in
            rest ∙ ground (arith, local.idem e)
        | inr differs ↦
            let now = local.other r st j (ground (arith, eq_iff r.id j)) ∙ at in
            rw differs (get-sweep rs (step r st) j e (step-AgreesAt-All r rs st h.0 h.1) now)
      ]
