-- ===== src/Activity/Spending.antt =====
-- The daily spending of one agent, asset and day, over any sequence of reservations.
use evergent.Base.{
  ◌≡◌, refl, sym, subst, ◌∙◌, ap, ◌⊎◌, inl, inr, Bool, true, false, ◌||◌, List, [], ◌∷◌, String,
  arith, Bool-cases, if◌then◌else◌, get_or_else,
}
use evergent.Base.Floats.{Floats}
use evergent.Base.StringMap.{get, get-set_self}
use evergent.Activity.{ActivityStore, map_key, reserve_daily_spending}

module _ (F : Floats) (day agent_id asset limit : String) where
  -- What is reserved so far.
  abbrev pub spent : ActivityStore F → F.Float
  spent s = get_or_else (get (map_key agent_id asset day) s.daily_spending) F.zero

  -- A reservation, seen as an answer and a new total.
  abbrev pub IsGranted : String → ActivityStore F → Type 0
  IsGranted amount s =
      (F.is_nan (F.parse_float amount) ≡ false)
      × (F.is_nan (F.parse_float limit) ≡ false)
      × (F.lt (F.parse_float limit) (F.add (spent s) (F.parse_float amount)) ≡ false)

  -- A reservation is granted exactly if the amount and the limit are numbers and the total stays
  -- within the limit; then the total grows by the amount, and otherwise the store stays as it is.
  pub reserve_lem :
      (amount : String) (s : ActivityStore F)
      → ((IsGranted amount s
            × ((reserve_daily_spending F day agent_id asset amount limit s).1 ≡ true)
            × (spent (reserve_daily_spending F day agent_id asset amount limit s).0
                ≡ F.add (spent s) (F.parse_float amount)))
          ⊎ ((IsGranted amount s → ⊥)
              × (reserve_daily_spending F day agent_id asset amount limit s ≡ (s, false))))
  unfolding reserve_daily_spending
  reserve_lem amount s =
      elim (Bool-cases (F.is_nan (F.parse_float amount) || F.is_nan (F.parse_float limit))) [
        | inl bad ↦ inr ((λ g. ground (arith, bad, g)), rw bad refl)
        | inr fine ↦
            elim (Bool-cases
              (F.lt (F.parse_float limit) (F.add (spent s) (F.parse_float amount)))) [
                | inl over ↦ inr ((λ g. ground (arith, over, g)), rw fine (rw over refl))
                | inr within ↦ inl (
                  (ground (arith, fine), ground (arith, fine), within),
                  rw fine (rw within refl),
                  rw fine (rw within (ap (λ o. get_or_else o F.zero) (get-set_self _ _ _))),
                )
              ]
      ]

  -- Reservations one after the other.
  pub reserve_all : List String → ActivityStore F → ActivityStore F
  reserve_all [] s = s
  reserve_all (amount ∷ rest) s =
      reserve_all rest (reserve_daily_spending F day agent_id asset amount limit s).0

  -- The amounts that are granted, in their order.
  unfoldable pub granted : List String → ActivityStore F → List String
  granted [] s = []
  granted (amount ∷ rest) s =
      let (s', ok) = reserve_daily_spending F day agent_id asset amount limit s in
      let more = granted rest s' in if ok then amount ∷ more else more

  pub total : F.Float → List String → F.Float
  total acc [] = acc
  total acc (amount ∷ rest) = total (F.add acc (F.parse_float amount)) rest

  -- The claim below for a list whose first reservation has the outcome `p`.
  Tells : String → List String → ActivityStore F → ActivityStore F × Bool → Type 0
  Tells amount rest s p =
      let more = granted rest p.0 in
      let all = if p.1 then amount ∷ more else more in
      (spent (reserve_all rest p.0) ≡ total (spent s) all)
      × ((all ≡ []) ⊎ (F.lt (F.parse_float limit) (spent (reserve_all rest p.0)) ≡ false))

  -- After any sequence of reservations the total is the sum, in their order, of the amounts that
  -- were granted, and it is not above the limit unless nothing was granted.
  pub reserve_all_lem :
      (amounts : List String) (s : ActivityStore F)
      → (spent (reserve_all amounts s) ≡ total (spent s) (granted amounts s))
        × ((granted amounts s ≡ [])
            ⊎ (F.lt (F.parse_float limit) (spent (reserve_all amounts s)) ≡ false))
  unfolding reserve_all granted total Tells
  reserve_all_lem [] s = (refl, inl refl)
  reserve_all_lem (amount ∷ rest) s =
      let s' = (reserve_daily_spending F day agent_id asset amount limit s).0 in
      let (sum, within) = reserve_all_lem rest s' in
      elim (reserve_lem amount s) [
        | inr (_, eq) ↦ subst (Tells amount rest s) (sym eq) (reserve_all_lem rest s)
        | inl (fits, ok, grown) ↦ (
          sum ∙ rw ok (ap (λ t. total t (granted rest s')) grown),
          inr (elim within [
            | inr bounded ↦ bounded
            | inl nothing ↦
                let still : spent (reserve_all rest s') ≡ spent s' =
                  sum ∙ ap (total (spent s')) nothing in
                rw (still, grown) fits.2
          ]),
        )
      ]
