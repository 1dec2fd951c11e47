-- ===== src/Stellar/Simulator/Preconditions.antt =====
-- What holds of a transaction that passes the simulation of packages/stellar/src/simulator.ts.
use evergent.Base.{
  ◌⊎◌, inl, inr, List, [], ◌∷◌, ◌++◌, All, ap, subst, Bool-cases, Option-cases, eq_iff, str_eq,
  get_or_else, Bool, true, false, not, Option, none, some, String, ◌≡◌, refl, sym, ◌∙◌,
  if◌then◌else◌,
}
use evergent.Base.Result.{Result, ok, error}
use evergent.Base.Floats.{Floats}
use evergent.Shared.{SimulationResult}
use evergent.Stellar.{OperationView, TransactionView, Numbers}
use evergent.Stellar.Simulator.{
  Balance, HorizonAccount, Horizon, native_balance, first_payment, payment_amount, fail, total_cost,
  available, is_next, check_balance, check_account, with_account, with_base_fee, with_envelope,
  simulate,
}

-- A conditional whose first branch fails has passed by its second.
not_failed :
    (c : Bool) (x y : SimulationResult)
    → x.success ≡ false
    → (if c then x else y).success ≡ true
    → (c ≡ false) × (y.success ≡ true)
not_failed true x y f h = let no : false ≡ true = sym f ∙ h in cc
not_failed false x y f h = (refl, h)

not-false : (b : Bool) → not b ≡ false → b ≡ true
not-false true h = refl
not-false false h = cc

-- An element is the first of a list with a property: the list is cut before it.
abbrev pub IsFirstOf {ℓ} : {A : Type ℓ} → (A → Type 0) → List A → A → Type ℓ
IsFirstOf P xs x =
    (before : List _) × (after : List _) × (xs ≡ before ++ x ∷ after)
    × All (λ y. ¬ P y) before
    × P x

abbrev pub IsNative : Balance → Type 0
IsNative b = b.asset_type ≡ "native"

abbrev pub IsPayment : OperationView → Type 0
IsPayment op = op.kind ≡ "payment"

native_balance-none : (bs : List Balance) → native_balance bs ≡ none → All (λ b. ¬ IsNative b) bs
native_balance-none [] h = tt
native_balance-none (b ∷ bs) h = elim (Bool-cases (str_eq b.asset_type "native")) [
  | inl native ↦ let no = (rw native at h) in cc
  | inr other ↦ (
    (λ e. let no : false ≡ true = sym other ∙ (eq_iff b.asset_type "native").1 e in cc),
    native_balance-none bs (rw other at h),
  )
]

native_balance-some :
    (bs : List Balance) (b : Balance) → native_balance bs ≡ some b → IsFirstOf IsNative bs b
native_balance-some [] b h = cc
native_balance-some (x ∷ bs) b h = elim (Bool-cases (str_eq x.asset_type "native")) [
  | inl native ↦
      let here : some x ≡ some b = (rw native at h) in
      let same : x ≡ b = ap (λ o. get_or_else o b) here in
      (
        [],
        bs,
        ap (λ y. y ∷ bs) same,
        tt,
        subst IsNative same ((eq_iff x.asset_type "native").0 native),
      )
  | inr other ↦
      let (before, after, cut, foreign, native) = native_balance-some bs b (rw other at h) in
      (
        x ∷ before,
        after,
        ap (λ l. x ∷ l) cut,
        (
          (λ e. let no : false ≡ true = sym other ∙ (eq_iff x.asset_type "native").1 e in cc),
          foreign,
        ),
        native,
      )
]

first_payment-none :
    (ops : List OperationView) → first_payment ops ≡ none → All (λ op. ¬ IsPayment op) ops
first_payment-none [] h = tt
first_payment-none (op ∷ ops) h = elim (Bool-cases (str_eq op.kind "payment")) [
  | inl pays ↦ let no = (rw pays at h) in cc
  | inr other ↦ (
    (λ e. let no : false ≡ true = sym other ∙ (eq_iff op.kind "payment").1 e in cc),
    first_payment-none ops (rw other at h),
  )
]

first_payment-some :
    (ops : List OperationView) (amount : String)
    → first_payment ops ≡ some amount
    → (op : OperationView) × IsFirstOf IsPayment ops op × (op.amount ≡ amount)
first_payment-some [] amount h = cc
first_payment-some (x ∷ ops) amount h = elim (Bool-cases (str_eq x.kind "payment")) [
  | inl pays ↦
      let here : some x.amount ≡ some amount = (rw pays at h) in
      (
        x,
        ([], ops, refl, tt, (eq_iff x.kind "payment").0 pays),
        ap (λ o. get_or_else o amount) here,
      )
  | inr other ↦
      let (op, (before, after, cut, foreign, pays), same) =
        first_payment-some ops amount (rw other at h) in
      (
        op,
        (
          x ∷ before,
          after,
          ap (λ l. x ∷ l) cut,
          ((λ e. let no : false ≡ true = sym other ∙ (eq_iff x.kind "payment").1 e in cc), foreign),
          pays,
        ),
        same,
      )
]

module _ (F : Floats) (N : Numbers F) where
  -- What a transaction pays: the amount of its first payment, and 0 without one.
  abbrev pub Pays : TransactionView → F.Float → Type 0
  Pays tx paid =
      (All (λ op. ¬ IsPayment op) tx.operations × (paid ≡ N.literal "0"))
      ⊎ ((op : OperationView) × IsFirstOf IsPayment tx.operations op × (paid ≡ N.number op.amount))

  -- The first native balance, less a reserve of 0.5 and 0.5 for each entry of the account, is not below
  -- the payment and the fee of the transaction, a ten-millionth for each stroop.
  abbrev pub IsCovered : TransactionView → HorizonAccount → Type 0
  IsCovered tx a =
      All (λ b. ¬ IsNative b) a.balances
      ⊎ ((b : Balance) × IsFirstOf IsNative a.balances b
          × ((paid : F.Float) × Pays tx paid
              × (F.lt
                    (F.sub (N.number b.balance) (
                      F.add (N.literal "0.5")
                        (N.multiply (N.literal "0.5") (N.of_nat (get_or_else a.subentry_count 0)))))
                    (F.add paid (N.divide (N.number tx.fee) (N.literal "1e7")))
                  ≡ false)))

  abbrev pub IsAdmitted : Horizon F → TransactionView → Type 0
  IsAdmitted h tx =
      (base_fee : F.Float) × (a : HorizonAccount) × (h.fetch_base_fee ≡ ok base_fee)
      × (h.account tx.source ≡ ok a)
      × (N.is_equal (N.number tx.sequence) (F.add (N.number a.sequence) (N.literal "1")) ≡ true)
      × (F.lt (N.number tx.fee) base_fee ≡ false)
      × IsCovered tx a

  payment_amount-Pays : (tx : TransactionView) → Pays tx (payment_amount F N tx)
  payment_amount-Pays tx = elim (Option-cases (first_payment tx.operations)) [
    | inl gone ↦ inl (first_payment-none tx.operations gone, rw (gone, payment_amount) refl)
    | inr (amount, at) ↦
        let (op, first, same) = first_payment-some tx.operations amount at in
        inr (op, first, rw (at, payment_amount) (ap N.number (sym same)))
  ]

  covered :
      (tx : TransactionView) (a : HorizonAccount) (o : Option Balance)
      → native_balance a.balances ≡ o
      → (check_balance F N tx a o).success ≡ true
      → IsCovered tx a
  covered tx a none found h = inl (native_balance-none a.balances found)
  covered tx a (some b) found h =
      let (enough, rest) =
        not_failed (F.lt (available F N a b) (total_cost F N tx)) (fail tx _) _ refl h in
      inr (
        b,
        native_balance-some a.balances b found,
        (payment_amount F N tx, payment_amount-Pays tx, enough),
      )

  account-IsAdmitted :
      (h : Horizon F) (tx : TransactionView) (base_fee : F.Float) (a : HorizonAccount)
      → h.fetch_base_fee ≡ ok base_fee
      → h.account tx.source ≡ ok a
      → (check_account F N tx base_fee a).success ≡ true
      → IsAdmitted h tx
  account-IsAdmitted h tx base_fee a e f success =
      let (next, rest) = not_failed (not (is_next F N tx a)) (fail tx _) _ refl success in
      let (fee, rest') = not_failed (F.lt (N.number tx.fee) base_fee) (fail tx _) _ refl rest in
      (
        base_fee,
        a,
        e,
        f,
        not-false _ next,
        fee,
        covered tx a (native_balance a.balances) refl rest',
      )

  with_account-IsAdmitted :
      (h : Horizon F) (tx : TransactionView) (base_fee : F.Float) (r : Result HorizonAccount)
      → h.fetch_base_fee ≡ ok base_fee
      → h.account tx.source ≡ r
      → (with_account F N tx base_fee r).success ≡ true
      → IsAdmitted h tx
  with_account-IsAdmitted h tx base_fee (ok a) e f success =
      account-IsAdmitted h tx base_fee a e f success
  with_account-IsAdmitted h tx base_fee (error message) e f success = cc

  with_base_fee-IsAdmitted :
      (h : Horizon F) (tx : TransactionView) (r : Result F.Float)
      → h.fetch_base_fee ≡ r
      → (with_base_fee F N h tx r).success ≡ true
      → IsAdmitted h tx
  with_base_fee-IsAdmitted h tx (ok base_fee) e success =
      with_account-IsAdmitted h tx base_fee (h.account tx.source) e refl success
  with_base_fee-IsAdmitted h tx (error message) e success = cc

  with_envelope-IsAdmitted :
      (h : Horizon F) (tx : TransactionView) (problem : Option String)
      → (with_envelope F N h tx problem).success ≡ true
      → (problem ≡ none) × IsAdmitted h tx
  with_envelope-IsAdmitted h tx none success =
      (refl, with_base_fee-IsAdmitted h tx h.fetch_base_fee refl success)
  with_envelope-IsAdmitted h tx (some message) success = cc

  -- A transaction passes the simulation only if its envelope is well formed, Horizon has given the base
  -- fee and the source account, its sequence number is the account's plus one, its fee is not below
  -- the base fee, and, where the account has a native balance, the first of them less the reserve of
  -- 0.5 and 0.5 for each entry is not below the amount of the first payment plus the fee in stroops
  -- divided by 1e7.
  pub simulate-IsAdmitted :
      (h : Horizon F) (tx : TransactionView) (problem : Option String)
      → (simulate F N h tx problem).success ≡ true
      → (problem ≡ none) × IsAdmitted h tx
  unfolding simulate
  simulate-IsAdmitted h tx problem success = with_envelope-IsAdmitted h tx problem success
