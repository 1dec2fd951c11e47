-- ===== src/Schedules/Validation/NextRun.antt =====
-- What `computeNextRun` of packages/database/src/schedule-validation.ts returns: the first minute, of
-- those that it tries, that the expression matches.
use evergent.Base.{
  ◌+◌, sym, ℕ, zero, suc, true, false, Option, none, some, ◌≡◌, refl, subst, ap, ◌∙◌, String, ◌<◌,
  arith, ltb, Bool-cases, inl, inr, and-eq-true,
}
use evergent.Schedules.Cron.{
  matches_minutes, matches_hours, matches_day_of_month, matches_month, matches_day_of_week,
}
use evergent.Schedules.Validation.{
  Calendar, Expression, matches_expression, is_hit, search_from, minutes_searched, compute_next_run,
  runs_at, next_run_of, by_error, expression_error, expression_of, parts_of,
  validate_schedule_expression,
}

-- The minute that is n further on.
abbrev pub minutes_on : Calendar → ℕ → ℕ → ℕ
minutes_on cal zero t = t
minutes_on cal (suc n) t = minutes_on cal n (cal.next_minute t)

-- The first hit of the next n minutes, or that none of them is one.
abbrev pub IsFirst : Calendar → Expression → ℕ → ℕ → ℕ → Option ℕ → Type 0
IsFirst cal e now n t none = (k : ℕ) → k < n → is_hit cal e now (minutes_on cal (suc k) t) ≡ false
IsFirst cal e now n t (some found) =
    (k : ℕ) × (k < n)
    × (found ≡ minutes_on cal (suc k) t)
    × (is_hit cal e now found ≡ true)
    × ((j : ℕ) → j < k → is_hit cal e now (minutes_on cal (suc j) t) ≡ false)

later_miss :
    (cal : Calendar) (e : Expression) (now n t : ℕ)
    → is_hit cal e now (cal.next_minute t) ≡ false
    → ((k : ℕ) → k < n → is_hit cal e now (minutes_on cal (suc k) (cal.next_minute t)) ≡ false)
    → (k : ℕ) → k < suc n
    → is_hit cal e now (minutes_on cal (suc k) t) ≡ false
later_miss cal e now n t miss h zero lt = miss
later_miss cal e now n t miss h (suc k) lt = h k (omega arith)

further :
    (cal : Calendar) (e : Expression) (now n t : ℕ) (o : Option ℕ)
    → is_hit cal e now (cal.next_minute t) ≡ false
    → IsFirst cal e now n (cal.next_minute t) o
    → IsFirst cal e now (suc n) t o
further cal e now n t none miss h = later_miss cal e now n t miss h
further cal e now n t (some found) miss (k, lt, same, hit, before) =
    (suc k, omega arith, same, hit, later_miss cal e now k t miss before)

search_from-IsFirst :
    (cal : Calendar) (e : Expression) (now n t : ℕ)
    → IsFirst cal e now n t (search_from cal e now n t)
unfolding search_from
search_from-IsFirst cal e now zero t = λ k h. absurd (omega arith)
search_from-IsFirst cal e now (suc n) t = elim (Bool-cases (is_hit cal e now (cal.next_minute t))) [
  | inl hit ↦ rw (hit, search_from) (0, omega arith, refl, hit, (λ j h. absurd (omega arith)))
  | inr miss ↦
      rw (miss, search_from)
        (further cal e now n t (search_from cal e now n (cal.next_minute t)) miss
          (search_from-IsFirst cal e now n (cal.next_minute t)))
]

-- The date and time of a minute match the five fields of the expression, and it is later than now.
abbrev pub IsHit : Calendar → Expression → ℕ → ℕ → Type 0
IsHit cal e now t =
    (matches_minutes (cal.minute_of t) e.minute ≡ true)
    × (matches_hours (cal.hour_of t) e.hour ≡ true)
    × (matches_day_of_month (cal.date_of t) e.dom ≡ true)
    × (matches_month (cal.month_of t + 1) e.month ≡ true)
    × (matches_day_of_week (cal.day_of t) e.dow ≡ true)
    × (now < t)

is_hit-IsHit :
    (cal : Calendar) (e : Expression) (now t : ℕ) → is_hit cal e now t ≡ true → IsHit cal e now t
unfolding matches_expression
is_hit-IsHit cal e now t h =
    let (all_five, later) = and-eq-true (matches_expression cal e t) (ltb now t) h in
    let (four, day) = and-eq-true _ _ all_five in
    let (three, month) = and-eq-true _ _ four in
    let (two, date) = and-eq-true _ _ three in
    let (minute, hour) = and-eq-true _ _ two in (minute, hour, date, month, day, ground arith)

IsHit-is_hit :
    (cal : Calendar) (e : Expression) (now t : ℕ) → IsHit cal e now t → is_hit cal e now t ≡ true
unfolding matches_expression
IsHit-is_hit cal e now t (minute, hour, date, month, day, later) =
    let after : ltb now t ≡ true = ground arith in
    rw minute (rw hour (rw date (rw month (rw day after))))

miss-IsHit :
    (cal : Calendar) (e : Expression) (now t : ℕ) → is_hit cal e now t ≡ false → ¬ IsHit cal e now t
miss-IsHit cal e now t miss hit =
    let no : false ≡ true = sym miss ∙ IsHit-is_hit cal e now t hit in cc

-- The first of n minutes after a time that is a hit, or none where none of them is.
abbrev pub IsNextRun : Calendar → Expression → ℕ → ℕ → ℕ → Option ℕ → Type 0
IsNextRun cal e now n t none = (k : ℕ) → k < n → ¬ IsHit cal e now (minutes_on cal (suc k) t)
IsNextRun cal e now n t (some found) =
    (k : ℕ) × (k < n)
    × (found ≡ minutes_on cal (suc k) t)
    × IsHit cal e now found
    × ((j : ℕ) → j < k → ¬ IsHit cal e now (minutes_on cal (suc j) t))

IsFirst-IsNextRun :
    (cal : Calendar) (e : Expression) (now n t : ℕ) (o : Option ℕ)
    → IsFirst cal e now n t o
    → IsNextRun cal e now n t o
IsFirst-IsNextRun cal e now n t none h = λ k lt. miss-IsHit cal e now _ (h k lt)
IsFirst-IsNextRun cal e now n t (some found) (k, lt, same, hit, before) = (
  k,
  lt,
  same,
  is_hit-IsHit cal e now found hit,
  (λ j lt'. miss-IsHit cal e now _ (before j lt')),
)

compute_next_run-IsFirst :
    (cal : Calendar) (now : ℕ) (e : Expression)
    → IsFirst cal e now minutes_searched (cal.start_of_minute now) (compute_next_run cal now e)
unfolding compute_next_run
compute_next_run-IsFirst cal now e =
    search_from-IsFirst cal e now minutes_searched (cal.start_of_minute now)

-- The next run is the first of the 525600 minutes after the current one whose minute, hour, day of the
-- month, month and day of the week match the fields of the expression and that is later than now; there
-- is none only if none of them is such a minute.
pub compute_next_run_lem :
    (cal : Calendar) (now : ℕ) (e : Expression)
    → IsNextRun cal e now 525600 (cal.start_of_minute now) (compute_next_run cal now e)
compute_next_run_lem cal now e =
    IsFirst-IsNextRun cal e now 525600 (cal.start_of_minute now) (compute_next_run cal now e)
      (compute_next_run-IsFirst cal now e)

-- A next run is later than now.
pub compute_next_run-later :
    (cal : Calendar) (now t : ℕ) (e : Expression) → compute_next_run cal now e ≡ some t → now < t
compute_next_run-later cal now t e h =
    let (k, lt, same, hit, before) =
      subst (IsFirst cal e now minutes_searched (cal.start_of_minute now)) h
        (compute_next_run-IsFirst cal now e) in
    let (rest, later) = and-eq-true (matches_expression cal e t) (ltb now t) hit in ground arith

next_run_of-later :
    (cal : Calendar) (now t : ℕ) (e : Expression) (o : Option ℕ)
    → compute_next_run cal now e ≡ o
    → next_run_of o ≡ runs_at t
    → (now < t) × (compute_next_run cal now e ≡ some t)
next_run_of-later cal now t e none found h = cc
next_run_of-later cal now t e (some x) found h =
    let same : x ≡ t = cc in
    let here = found ∙ ap some same in (compute_next_run-later cal now t e here, here)

by_error-later :
    (cal : Calendar) (now t : ℕ) (e : Expression) (o : Option String)
    → by_error o cal now e ≡ runs_at t
    → (now < t) × (compute_next_run cal now e ≡ some t)
by_error-later cal now t e none h = next_run_of-later cal now t e _ refl h
by_error-later cal now t e (some message) h = cc

-- The fields of an expression.
abbrev pub fields_of : String → Expression
fields_of text = expression_of (parts_of text)

-- An expression that is accepted next runs later than now, at the time that `computeNextRun` finds.
pub validate_schedule_expression-later :
    (cal : Calendar) (now t : ℕ) (text timezone : String)
    → validate_schedule_expression cal now (some text) (some timezone) ≡ runs_at t
    → (now < t) × (compute_next_run cal now (fields_of text) ≡ some t)
unfolding validate_schedule_expression
validate_schedule_expression-later cal now t text timezone h =
    by_error-later cal now t (fields_of text) (expression_error text (some timezone)) h
