-- ===== src/Schedules/Cron/Matches.antt =====
-- What a valid field of a schedule expression matches.
use evergent.Base.{
  ◌+◌, ◌↔◌, ◌⊎◌, ◌≤◌, ◌<◌, ◌-◌, ◌%◌, leb, ltb, ◌==◌, subst, ◌≢◌, ℕ, true, false, ◌&&◌, [], ◌∷◌, ◌≡◌,
  refl, sym, ap, ◌∙◌, arith, Bool-cases, inl, inr, and-eq-true,
}
use evergent.Base.Parse.{Codes, has_code, same_codes, Whole, nan, plus, minus, parse_int}
use evergent.Schedules.Cron.{
  star, zero_text, at_least, at_most, whole_le, is_step, divides, on_step, first_part, second_part,
  base_of, is_valid_base, is_valid_part, matches_part,
}
use evergent.Schedules.Cron.Prefix.{cut, split_lem, is_number, parse_int-cut}

at_least-is_number : (lo : ℕ) (w : Whole) → at_least lo w ≡ true → is_number w ≡ true
at_least-is_number lo nan h = cc
at_least-is_number lo (plus n) h = refl
at_least-is_number lo (minus n) h = refl

pub at_most_trans :
    (hi : ℕ) (a b : Whole) → at_most hi b ≡ true → whole_le a b ≡ true → at_most hi a ≡ true
at_most_trans hi nan b h k = cc
at_most_trans hi (plus a) nan h k = cc
at_most_trans hi (plus a) (plus b) h k = ground arith
at_most_trans hi (plus a) (minus b) h k = ground arith
at_most_trans hi (minus a) b h k = refl

-- The number that a field begins with, where the field has a range.
first_part_lem :
    (lo : ℕ) (field : Codes)
    → at_least lo (first_part b'-' field) ≡ true
    → parse_int field ≡ first_part b'-' field
first_part_lem lo field h =
    let at : first_part b'-' field ≡ parse_int (cut field) =
      ap parse_int (split_lem zero_text field) in
    parse_int-cut field (at_least-is_number lo _ (sym (ap (at_least lo) at) ∙ h)) ∙ sym at

module _ (lo hi : ℕ) where
  range_equation :
      (field : Codes)
      → same_codes field star ≡ false
      → has_code b'-' field ≡ true
      → is_valid_base lo hi field ≡ (
          at_least lo (first_part b'-' field)
          && at_most hi (second_part b'-' field)
          && whole_le (first_part b'-' field) (second_part b'-' field))
  unfolding is_valid_base
  range_equation [] plain dash = cc
  range_equation (c ∷ s) plain dash = rw (plain, dash, is_valid_base) refl

  number_equation :
      (field : Codes)
      → same_codes field star ≡ false
      → has_code b'-' field ≡ false
      → is_valid_base lo hi field ≡ true
      → (at_least lo (parse_int field) && at_most hi (parse_int field)) ≡ true
  unfolding is_valid_base
  number_equation [] plain dash h = cc
  number_equation (c ∷ s) plain dash h =
      let e : is_valid_base lo hi (c ∷ s)
          ≡ (at_least lo (parse_int (c ∷ s)) && at_most hi (parse_int (c ∷ s))) =
        rw (plain, dash, is_valid_base) refl in
      sym e ∙ h

  pub valid_range :
      (field : Codes)
      → same_codes field star ≡ false
      → has_code b'-' field ≡ true
      → is_valid_base lo hi field ≡ true
      → (at_least lo (first_part b'-' field) ≡ true)
        × (at_most hi (second_part b'-' field) ≡ true)
        × (whole_le (first_part b'-' field) (second_part b'-' field) ≡ true)
  valid_range field plain dash h =
      let (bounds, le) = and-eq-true _ _ (sym (range_equation field plain dash) ∙ h) in
      let (least, most) = and-eq-true _ _ bounds in (least, most, le)

  pub valid_number :
      (field : Codes)
      → same_codes field star ≡ false
      → has_code b'-' field ≡ false
      → is_valid_base lo hi field ≡ true
      → (at_least lo (parse_int field) ≡ true) × (at_most hi (parse_int field) ≡ true)
  valid_number field plain dash h = and-eq-true _ _ (number_equation field plain dash h)

  -- A valid field with no comma and no slash, unless it is a star, begins with a number in the range.
  pub valid_start :
      (field : Codes)
      → same_codes field star ≡ false
      → is_valid_base lo hi field ≡ true
      → (at_least lo (parse_int field) ≡ true) × (at_most hi (parse_int field) ≡ true)
  valid_start field plain h = elim (Bool-cases (has_code b'-' field)) [
    | inl dash ↦
        let (least, most, le) = valid_range field plain dash h in
        let same = first_part_lem lo field least in
        (ap (at_least lo) same ∙ least, ap (at_most hi) same ∙ at_most_trans hi _ _ most le)
    | inr other ↦ valid_number field plain other h
  ]

  pub valid_step :
      (field : Codes)
      → has_code b'/' field ≡ true
      → is_valid_part lo hi field ≡ true
      → (is_valid_base lo hi (base_of field) ≡ true) × (is_step (second_part b'/' field) ≡ true)
  unfolding is_valid_part
  valid_step field slash h =
      let e : is_valid_part lo hi field
          ≡ (is_valid_base lo hi (base_of field) && is_step (second_part b'/' field)) =
        rw (slash, is_valid_part) refl in
      and-eq-true _ _ (sym e ∙ h)

pub star-has_code :
    (d : ℕ) (field : Codes) → has_code d field ≡ true → d ≢ b'*' → same_codes field star ≡ false
star-has_code d [] h k = cc
star-has_code d (c ∷ []) h k = ground arith
star-has_code d (c ∷ x ∷ s) h k = ground arith

-- The number that `parseInt` has returned: -0 is 0.
abbrev pub Reads : Whole → ℕ → Type 0
Reads w a = (w ≡ plus a) ⊎ ((w ≡ minus 0) × (a ≡ 0))

at_least-Reads : (lo : ℕ) (w : Whole) → at_least lo w ≡ true → (a : ℕ) × Reads w a × (lo ≤ a)
at_least-Reads lo nan h = cc
at_least-Reads lo (plus a) h = (a, inl refl, ground arith)
at_least-Reads lo (minus a) h =
    let zero_a : a ≡ 0 = ground arith in (0, inr (ap minus zero_a, refl), ground arith)

is_step-positive : (w : Whole) → is_step w ≡ true → (step : ℕ) × (w ≡ plus step) × (0 < step)
is_step-positive nan h = cc
is_step-positive (plus step) h = (step, refl, ground arith)
is_step-positive (minus step) h = cc

on_step-plus :
    (value a step : ℕ)
    → 0 < step
    → (on_step value (plus a) (plus step) ≡ true) ↔ ((a ≤ value) × ((value - a) % step ≡ 0))
on_step-plus value a step positive = (
  (λ h.
      let (from, step_hit) = and-eq-true (leb a value) (divides (plus step) (value - a)) h in
      let (p, hit) = and-eq-true (ltb 0 step) ((value - a) % step == 0) step_hit in
      (ground arith, ground arith)),
  (λ (from, hit).
      let b : leb a value ≡ true = ground arith in
      let p : ltb 0 step ≡ true = ground arith in
      let z : ((value - a) % step == 0) ≡ true = ground arith in rw b (rw p z)),
)

on_step-Reads :
    (value a step : ℕ) (w : Whole)
    → Reads w a
    → 0 < step
    → (on_step value w (plus step) ≡ true) ↔ ((a ≤ value) × ((value - a) % step ≡ 0))
on_step-Reads value a step w (inl is) positive =
    subst (λ x. (on_step value x (plus step) ≡ true) ↔ ((a ≤ value) × ((value - a) % step ≡ 0)))
      (sym is) (on_step-plus value a step positive)
on_step-Reads value a step w (inr (is, zero_a)) positive =
    let same : on_step value w (plus step) ≡ on_step value (plus a) (plus step) =
      ap (λ x. on_step value x (plus step)) is
      ∙ minus_zero
      ∙ ap (λ n. on_step value (plus n) (plus step)) (sym zero_a) in
    let (there, back) = on_step-plus value a step positive in
    ((λ h. there (sym same ∙ h)), (λ h. same ∙ back h))
  where
    minus_zero : on_step value (minus 0) (plus step) ≡ on_step value (plus 0) (plus step)
    minus_zero =
        let from : leb 0 value ≡ true = ground arith in
        let same : value + 0 ≡ value - 0 = omega arith in
        ap (divides (plus step)) same ∙ sym (ap (λ b. b && divides (plus step) (value - 0)) from)

-- In a valid range with a step, `a-b/n`, the end of the range is ignored: `a` is read as a number, `n`
-- as a positive one, and a value is matched exactly if it is `a` plus a multiple of `n`, whether it is
-- within the range or beyond it.
pub matches_part-range_step :
    (lo hi value : ℕ) (field : Codes)
    → has_code b'/' field ≡ true
    → has_code b'-' (base_of field) ≡ true
    → is_valid_part lo hi field ≡ true
    → (a : ℕ) × (step : ℕ) × Reads (first_part b'-' (base_of field)) a
      × (second_part b'/' field ≡ plus step)
      × (lo ≤ a)
      × (0 < step)
      × ((matches_part value field ≡ true) ↔ ((a ≤ value) × ((value - a) % step ≡ 0)))
unfolding matches_part
matches_part-range_step lo hi value field slash dash h =
    let plain = star-has_code b'/' field slash (λ e. absurd (omega arith)) in
    let plain_base = star-has_code b'-' (base_of field) dash (λ e. absurd (omega arith)) in
    let (valid, stepped) = valid_step lo hi field slash h in
    let (least, most, le) = valid_range lo hi (base_of field) plain_base dash valid in
    let same = first_part_lem lo (base_of field) least in
    let (a, reads, from) = at_least-Reads lo _ least in
    let (step, step_is, positive) = is_step-positive _ stepped in
    let e : matches_part value field
        ≡ on_step value (parse_int (base_of field)) (second_part b'/' field) =
      rw (plain, slash, plain_base, matches_part) refl in
    let e' : matches_part value field
        ≡ on_step value (first_part b'-' (base_of field)) (plus step) =
      e
      ∙ ap (λ w. on_step value w (second_part b'/' field)) same
      ∙ ap (on_step value (first_part b'-' (base_of field))) step_is in
    let (there, back) = on_step-Reads value a step _ reads positive in
    (a, step, reads, step_is, from, positive, ((λ m. there (sym e' ∙ m)), (λ m. e' ∙ back m)))
