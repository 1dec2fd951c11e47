-- ===== src/Schedules/Cron.antt =====
-- The fields of a schedule expression in packages/database/src/schedule-validation.ts: which are
-- valid, and which values they match. The source calls itself on the parts between the commas of a
-- field, and on the base before a slash, where neither character is left: each level is a function.
pub mod Values
pub mod Prefix
pub mod Matches
use evergent.Base.{
  ℕ, Bool, true, false, not, ◌&&◌, ◌||◌, List, [], ◌∷◌, any, all, if◌then◌else◌, ltb, leb, ◌==◌,
  ◌+◌, ◌-◌, ◌%◌,
}
use evergent.Base.Parse.{
  Codes, split, has_code, same_codes, part_or, Whole, nan, plus, minus, parse_int,
}

abbrev pub star : Codes
star = b'*' ∷ []

abbrev pub zero_text : Codes
zero_text = b'0' ∷ []

-- `lo <= n`, `n <= hi` and `n === value` of a number that `parseInt` returned
abbrev pub at_least : ℕ → Whole → Bool
at_least lo nan = false
at_least lo (plus n) = leb lo n
at_least lo (minus n) = leb (lo + n) 0

abbrev pub at_most : ℕ → Whole → Bool
at_most hi nan = false
at_most hi (plus n) = leb n hi
at_most hi (minus n) = true

abbrev pub is_equal : ℕ → Whole → Bool
is_equal value nan = false
is_equal value (plus n) = value == n
is_equal value (minus n) = (value == 0) && (n == 0)

-- `start <= end`
abbrev pub whole_le : Whole → Whole → Bool
whole_le nan b = false
whole_le (plus a) b = at_least a b
whole_le (minus a) nan = false
whole_le (minus a) (plus b) = true
whole_le (minus a) (minus b) = leb b a

-- `parseInt(stepStr) > 0`
abbrev pub is_step : Whole → Bool
is_step nan = false
is_step (plus n) = ltb 0 n
is_step (minus n) = false

-- `n % step === 0`, which is false for a step of 0 or NaN
abbrev pub divides : Whole → ℕ → Bool
divides nan n = false
divides (plus step) n = ltb 0 step && (n % step == 0)
divides (minus step) n = ltb 0 step && (n % step == 0)

-- `value >= start && (value - start) % step === 0`
abbrev pub on_step : ℕ → Whole → Whole → Bool
on_step value nan step = false
on_step value (plus start) step = leb start value && divides step (value - start)
on_step value (minus start) step = divides step (value + start)

abbrev pub first_part : ℕ → Codes → Whole
first_part d field = parse_int (part_or zero_text 0 (split d field))

abbrev pub second_part : ℕ → Codes → Whole
second_part d field = parse_int (part_or zero_text 1 (split d field))

abbrev pub base_of : Codes → Codes
base_of field = part_or [] 0 (split b'/' field)

module _ (lo hi : ℕ) where
  -- A field without a comma or a slash.
  unfoldable pub is_valid_base : Codes → Bool
  unfolding split parse_int
  is_valid_base field =
      if same_codes field star || same_codes field []
      then same_codes field star
      else if has_code b'-' field
      then (at_least lo (first_part b'-' field)
          && at_most hi (second_part b'-' field)
          && whole_le (first_part b'-' field) (second_part b'-' field))
      else (at_least lo (parse_int field) && at_most hi (parse_int field))

  -- A field without a comma.
  unfoldable pub is_valid_part : Codes → Bool
  unfolding is_valid_base
  is_valid_part field =
      if has_code b'/' field
      then (is_valid_base (base_of field) && is_step (second_part b'/' field))
      else is_valid_base field

  -- `isValidCronField(field, lo, hi)`
  unfoldable pub is_valid_cron_field : Codes → Bool
  unfolding is_valid_part
  is_valid_cron_field field =
      if has_code b',' field then all is_valid_part (split b',' field) else is_valid_part field

-- `matchesMinutes` and its four copies, of a field without a comma
unfoldable pub matches_part : ℕ → Codes → Bool
unfolding split parse_int
matches_part value field =
    if same_codes field star
    then true
    else if has_code b'/' field
    then (if same_codes (base_of field) star
        then divides (second_part b'/' field) value
        else on_step value (parse_int (base_of field)) (second_part b'/' field))
    else if has_code b'-' field
    then (at_most value (first_part b'-' field) && at_least value (second_part b'-' field))
    else is_equal value (parse_int field)

unfoldable pub matches_minutes : ℕ → Codes → Bool
unfolding matches_part
matches_minutes value field =
    if has_code b',' field
    then any (matches_part value) (split b',' field)
    else matches_part value field

-- The copies of `matchesMinutes` for the other fields, which have the same text.
abbrev pub matches_hours : ℕ → Codes → Bool
matches_hours = matches_minutes

abbrev pub matches_day_of_month : ℕ → Codes → Bool
matches_day_of_month = matches_minutes

abbrev pub matches_month : ℕ → Codes → Bool
matches_month = matches_minutes

abbrev pub matches_day_of_week : ℕ → Codes → Bool
matches_day_of_week = matches_minutes
