-- ===== src/Schedules/Validation.antt =====
-- `validateScheduleExpression`, `validateScheduleIntent` and `computeNextRun` of
-- packages/database/src/schedule-validation.ts. The calendar, in which a date's local fields are read
-- and its minutes are set, is a parameter.
pub mod NextRun
use evergent.Base.{
  ℕ, zero, suc, Bool, true, false, not, ◌&&◌, ◌||◌, List, [], ◌∷◌, Option, none, some, String,
  if◌then◌else◌, ltb, ◌==◌, length, any, str_eq, ◌+◌, get_or_else,
}
use evergent.Base.Floats.{Floats, le_zero}
use evergent.Base.Parse.{Codes, trim, split_spaces, part_or}
use evergent.Base.Text.{codes, is_truthy, is_given, js_length, starts_with}
use evergent.Shared.{AgentIntent, payment, trustline, contract_call, account_settings}
use evergent.Schedules.Cron.{
  is_valid_cron_field, matches_minutes, matches_hours, matches_day_of_month, matches_month,
  matches_day_of_week,
}

-- Local dates, named by their time in milliseconds. `next_minute` is
-- `d.setMinutes(d.getMinutes() + 1)` and `start_of_minute` is `d.setSeconds(0, 0)`.
pub record Calendar : Type 0 where
  pub start_of_minute : ℕ → ℕ
  pub next_minute : ℕ → ℕ
  pub minute_of : ℕ → ℕ
  pub hour_of : ℕ → ℕ
  pub date_of : ℕ → ℕ
  pub month_of : ℕ → ℕ
  pub day_of : ℕ → ℕ

pub record Expression : Type 0 where
  pub minute : Codes
  pub hour : Codes
  pub dom : Codes
  pub month : Codes
  pub dow : Codes

-- `{ valid: true, nextRunAt }`, or the error of `{ valid: false, error }`
pub data ExpressionValidation : Type 0 where
  runs_at : ℕ → ExpressionValidation
  refused : String → ExpressionValidation

-- The tests of one candidate's fields.
unfoldable pub matches_expression : Calendar → Expression → ℕ → Bool
unfolding matches_minutes
matches_expression cal e candidate =
    matches_minutes (cal.minute_of candidate) e.minute
    && matches_hours (cal.hour_of candidate) e.hour
    && matches_day_of_month (cal.date_of candidate) e.dom
    && matches_month (cal.month_of candidate + 1) e.month
    && matches_day_of_week (cal.day_of candidate) e.dow

abbrev pub is_hit : Calendar → Expression → ℕ → ℕ → Bool
is_hit cal e now candidate = matches_expression cal e candidate && ltb now candidate

-- The loop, for a number of further minutes.
unfoldable pub search_from : Calendar → Expression → ℕ → ℕ → ℕ → Option ℕ
unfolding matches_expression
search_from cal e now zero candidate = none
search_from cal e now (suc n) candidate =
    let next = cal.next_minute candidate in
    let later = search_from cal e now n next in if is_hit cal e now next then some next else later

abbrev pub minutes_searched : ℕ
minutes_searched = 525600

unfoldable pub compute_next_run : Calendar → ℕ → Expression → Option ℕ
unfolding search_from
compute_next_run cal now e = search_from cal e now minutes_searched (cal.start_of_minute now)

abbrev pub timezones : List String
timezones = "UTC" ∷ "America/New_York" ∷ "Europe/London" ∷ "Asia/Tokyo" ∷ []

abbrev pub is_valid_timezone : String → Bool
is_valid_timezone tz = any (λ known. str_eq known tz) timezones

abbrev pub parts_of : String → List Codes
parts_of expression = split_spaces false (trim (codes expression))

abbrev pub expression_of : List Codes → Expression
expression_of parts = record {
  minute = part_or [] 0 parts;
  hour = part_or [] 1 parts;
  dom = part_or [] 2 parts;
  month = part_or [] 3 parts;
  dow = part_or [] 4 parts;
}

-- The error of the first field that is not valid.
unfoldable pub field_error : Expression → Option String
unfolding is_valid_cron_field
field_error e =
    if not (is_valid_cron_field 0 59 e.minute)
    then some "invalid minute"
    else if not (is_valid_cron_field 0 23 e.hour)
    then some "invalid hour"
    else if not (is_valid_cron_field 1 31 e.dom)
    then some "invalid day-of-month"
    else if not (is_valid_cron_field 1 12 e.month)
    then some "invalid month"
    else if not (is_valid_cron_field 0 6 e.dow)
    then some "invalid day-of-week"
    else none

-- The error of the first check that fails.
unfoldable pub expression_error : String → Option String → Option String
unfolding field_error trim split_spaces
expression_error text timezone =
    if not (is_truthy text) || (length (trim (codes text)) == 0)
    then some "schedule expression is required"
    else if not (is_given timezone) || not (is_valid_timezone (get_or_else timezone ""))
    then some "invalid timezone"
    else if not (length (parts_of text) == 5)
    then some "schedule expression must have 5 fields"
    else field_error (expression_of (parts_of text))

abbrev pub next_run_of : Option ℕ → ExpressionValidation
next_run_of none = refused "could not compute next run time"
next_run_of (some t) = runs_at t

abbrev pub by_error : Option String → Calendar → ℕ → Expression → ExpressionValidation
by_error (some message) cal now e = refused message
by_error none cal now e = next_run_of (compute_next_run cal now e)

-- `validateScheduleExpression`, with the clock's time. The timezone is checked and not used.
unfoldable pub validate_schedule_expression :
    Calendar → ℕ → Option String → Option String → ExpressionValidation
unfolding expression_error compute_next_run
validate_schedule_expression cal now expression timezone =
    let text = get_or_else expression "" in
    by_error (expression_error text timezone) cal now (expression_of (parts_of text))

-- `validateScheduleIntent`: the error, or nothing for a valid intent
module _ (F : Floats) where
  unfoldable pub validate_schedule_intent : Option AgentIntent → Option String
  unfolding js_length starts_with
  validate_schedule_intent none = some "intent is required"
  validate_schedule_intent (some (trustline t)) = some "unsupported intent type"
  validate_schedule_intent (some (contract_call c)) = some "unsupported intent type"
  validate_schedule_intent (some (account_settings a)) = some "unsupported intent type"
  validate_schedule_intent (some (payment p)) =
      if not (is_truthy p.asset)
      then some "intent.asset is required"
      else if not (is_truthy p.destination) || not (starts_with p.destination "G")
      then some "invalid destination"
      else if not (is_truthy p.amount)
          || F.is_nan (F.parse_float p.amount)
          || le_zero F (F.parse_float p.amount)
      then some "invalid amount"
      else if not (is_truthy p.reason) || ltb (js_length p.reason) 3
      then some "reason too short"
      else none
