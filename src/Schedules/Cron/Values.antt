-- ===== src/Schedules/Cron/Values.antt =====
-- Valid fields of packages/database/src/schedule-validation.ts have values that they match.
use native.Mathlib.Nat.{zero-mod}
use evergent.Base.{
  ◌≢◌, ℕ, true, false, ◌&&◌, List, [], ◌∷◌, any, all, ◌==◌, ◌≡◌, refl, sym, ◌∙◌, ◌≤◌, ◌+◌, ◌-◌,
  arith, Bool-cases, inl, inr, and-eq-true,
}
use evergent.Base.Parse.{
  Codes, split, before_first, has_code, same_codes, Whole, nan, plus, minus, parse_int,
}
use evergent.Schedules.Cron.{
  star, at_least, at_most, is_equal, whole_le, is_step, divides, on_step, first_part, second_part,
  base_of, is_valid_base, is_valid_part, is_valid_cron_field, matches_part, matches_minutes,
}
use evergent.Schedules.Cron.Matches.{
  at_most_trans, valid_range, valid_number, valid_start, valid_step, star-has_code,
}

-- The number itself, or 0 for the rest.
abbrev value_of : Whole → ℕ
value_of nan = 0
value_of (plus n) = n
value_of (minus n) = 0

value_of-at_most : (hi : ℕ) (w : Whole) → at_most hi w ≡ true → value_of w ≤ hi
value_of-at_most hi nan h = cc
value_of-at_most hi (plus n) h = ground arith
value_of-at_most hi (minus n) h = omega arith

divides_zero : (step : Whole) → is_step step ≡ true → divides step 0 ≡ true
divides_zero nan k = cc
divides_zero (plus m) k = rw (zero-mod m) (ground arith)
divides_zero (minus m) k = cc

on_step_start :
    (w step : Whole)
    → at_least 0 w ≡ true
    → is_step step ≡ true
    → on_step (value_of w) w step ≡ true
on_step_start nan step h k = cc
on_step_start (plus n) nan h k = cc
on_step_start (plus n) (plus m) h k =
    let same : n - n ≡ 0 = omega arith in rw same (ground (arith, divides_zero (plus m) k))
on_step_start (plus n) (minus m) h k = cc
on_step_start (minus n) nan h k = cc
on_step_start (minus n) (plus m) h k =
    let same : 0 + n ≡ 0 = ground arith in rw same (divides_zero (plus m) k)
on_step_start (minus n) (minus m) h k = cc

in_range_start :
    (a b : Whole)
    → at_least 0 a ≡ true
    → whole_le a b ≡ true
    → (at_most (value_of a) a && at_least (value_of a) b) ≡ true
in_range_start nan b h k = cc
in_range_start (plus n) nan h k = cc
in_range_start (plus n) (plus m) h k = ground arith
in_range_start (plus n) (minus m) h k = ground arith
in_range_start (minus n) nan h k = cc
in_range_start (minus n) (plus m) h k = ground arith
in_range_start (minus n) (minus m) h k = ground arith

is_equal_self : (w : Whole) → at_least 0 w ≡ true → is_equal (value_of w) w ≡ true
is_equal_self nan h = cc
is_equal_self (plus n) h = ground arith
is_equal_self (minus n) h = ground arith

-- Some value in the range is matched.
abbrev IsMatched : ℕ → Codes → Type 0
IsMatched hi field = (value : ℕ) × (value ≤ hi) × (matches_part value field ≡ true)

base-IsMatched :
    (hi : ℕ) (field : Codes)
    → same_codes field star ≡ false
    → has_code b'/' field ≡ false
    → is_valid_base 0 hi field ≡ true
    → IsMatched hi field
unfolding matches_part
base-IsMatched hi field plain no_slash h = elim (Bool-cases (has_code b'-' field)) [
  | inl dash ↦
      let (least, most, le) = valid_range 0 hi field plain dash h in
      (
        value_of (first_part b'-' field),
        value_of-at_most hi _ (at_most_trans hi _ _ most le),
        rw (plain, no_slash, dash, matches_part)
            (in_range_start (first_part b'-' field) (second_part b'-' field) least le),
      )
  | inr other ↦
      let (least, most) = valid_number 0 hi field plain other h in
      (
        value_of (parse_int field),
        value_of-at_most hi _ most,
        rw (plain, no_slash, other, matches_part) (is_equal_self (parse_int field) least),
      )
]

step-IsMatched :
    (hi : ℕ) (field : Codes)
    → has_code b'/' field ≡ true
    → is_valid_part 0 hi field ≡ true
    → IsMatched hi field
unfolding matches_part
step-IsMatched hi field slash h =
    let plain = star-has_code b'/' field slash (λ e. absurd (omega arith)) in
    let (valid, step) = valid_step 0 hi field slash h in
    elim (Bool-cases (same_codes (base_of field) star)) [
      | inl any_base ↦ (
        0,
        omega arith,
        rw (plain, slash, any_base, matches_part) (divides_zero (second_part b'/' field) step),
      )
      | inr start ↦
          let (least, most) = valid_start 0 hi (base_of field) start valid in
          (
            value_of (parse_int (base_of field)),
            value_of-at_most hi _ most,
            rw (plain, slash, start, matches_part)
                (on_step_start (parse_int (base_of field)) (second_part b'/' field) least step),
          )
    ]

part-IsMatched : (hi : ℕ) (field : Codes) → is_valid_part 0 hi field ≡ true → IsMatched hi field
unfolding is_valid_part matches_part
part-IsMatched hi field h = elim (Bool-cases (same_codes field star)) [
  | inl same ↦ (0, omega arith, rw (same, matches_part) refl)
  | inr plain ↦ elim (Bool-cases (has_code b'/' field)) [
    | inl slash ↦ step-IsMatched hi field slash h
    | inr none_there ↦
        let e : is_valid_part 0 hi field ≡ is_valid_base 0 hi field =
          rw (none_there, is_valid_part) refl in
        base-IsMatched hi field plain none_there (sym e ∙ h)
  ]
]

first_matched :
    (hi : ℕ) (parts : List Codes)
    → all (is_valid_part 0 hi) parts ≡ true
    → parts ≢ []
    → (value : ℕ) × (value ≤ hi) × (any (matches_part value) parts ≡ true)
first_matched hi [] h k = absurd (k refl)
first_matched hi (part ∷ parts) h k =
    let (valid, rest) = and-eq-true _ _ h in
    let (value, most, hit) = part-IsMatched hi part valid in (value, most, rw hit refl)

before_first-nonempty : (c : ℕ) (parts : List Codes) → before_first c parts ≢ []
before_first-nonempty c [] = λ e. cc
before_first-nonempty c (part ∷ parts) = λ e. cc

split-nonempty : (d : ℕ) (s : Codes) → split d s ≢ []
unfolding split
split-nonempty d [] = λ e. cc
split-nonempty d (c ∷ s) = elim (Bool-cases (c == d)) [
  | inl same ↦ rw same (λ e. cc)
  | inr other ↦ rw other (before_first-nonempty c (split d s))
]

-- A valid minute, hour or day of the week, whose values begin at 0, matches some value of its range.
pub valid_field_matches :
    (hi : ℕ) (field : Codes)
    → is_valid_cron_field 0 hi field ≡ true
    → (value : ℕ) × (value ≤ hi) × (matches_minutes value field ≡ true)
unfolding is_valid_cron_field matches_minutes
valid_field_matches hi field h = elim (Bool-cases (has_code b',' field)) [
  | inl comma ↦
      let e : is_valid_cron_field 0 hi field ≡ all (is_valid_part 0 hi) (split b',' field) =
        rw (comma, is_valid_cron_field) refl in
      let (value, most, hit) =
        first_matched hi (split b',' field) (sym e ∙ h) (split-nonempty b',' field) in
      (value, most, rw (comma, matches_minutes) hit)
  | inr single ↦
      let e : is_valid_cron_field 0 hi field ≡ is_valid_part 0 hi field =
        rw (single, is_valid_cron_field) refl in
      let (value, most, hit) = part-IsMatched hi field (sym e ∙ h) in
      (value, most, rw (single, matches_minutes) hit)
]
