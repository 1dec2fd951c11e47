-- ===== src/Tests/ScheduleTests.antt =====
-- Schedules, their expressions, and the scheduler's passes.
use evergent.Base.{
  ℕ, suc, ◌≤◌, ◌<◌, ◌↔◌, ◌+◌, ◌-◌, ◌/◌, ◌%◌, ◌≡◌, refl, true, false, [], ◌∷◌, none, List,
}
use evergent.Base.Parse.{plus, split}
use evergent.Base.Text.{codes}
use evergent.Schedules.{ScheduleStatus, ScheduleRecord}
use evergent.Schedules.Calls.{Call, create, look_up, change, drop, answers, abstract_step}
use evergent.Schedules.Memory.{memory_step}
use evergent.Schedules.Sqlite.Simulation.{sqlite_step}
use evergent.Schedules.Refinement.{stores_refine}
use evergent.Schedules.Cron.{
  matches_part, is_valid_part, is_valid_base, first_part, second_part, base_of,
}
use evergent.Schedules.Cron.Matches.{Reads, matches_part-range_step}
use evergent.Schedules.Validation.{Calendar}
use evergent.Tests.Samples.{pay}

abbrev pub rent : ScheduleRecord
rent = record {
  id = "s1";
  agent_id = "a1";
  owner_id = "ann";
  status = ScheduleStatus.active;
  intent = pay "10" "GB";
  schedule_expression = "*/5 * * * *";
  timezone = "UTC";
  next_run_at = 1000;
  last_run_at = none;
  created_at = 100;
  updated_at = 100;
}

-- Days of UTC, in months of 31 days.
abbrev pub days_of_utc : Calendar
days_of_utc = record {
  start_of_minute = λ t. t - t % 60000;
  next_minute = λ t. t + 60000;
  minute_of = λ t. (t / 60000) % 60;
  hour_of = λ t. (t / 3600000) % 24;
  date_of = λ t. suc ((t / 86400000) % 31);
  month_of = λ t. suc ((t / 2678400000) % 12);
  day_of = λ t. (t / 86400000) % 7;
}

abbrev calls : List Call
calls =
    create rent
    ∷ change 5 "s1" (λ r. record r { status = ScheduleStatus.paused })
    ∷ look_up "s1"
    ∷ drop "s1"
    ∷ []

stores_refine_example :
    (answers memory_step calls [] ≡ answers abstract_step calls (λ id. none))
    × (answers (sqlite_step (λ i. i) (λ i. i)) calls [] ≡ answers abstract_step calls (λ id. none))
stores_refine_example =
    stores_refine (λ i. i) (λ i. i) (λ i. refl) calls
      (refl, ((λ r. (refl, refl, refl, refl)), (tt, (tt, tt))))

matches_part-range_step_example :
    (a : ℕ) × (step : ℕ) × Reads (first_part b'-' (base_of (codes "10-20/5"))) a
    × (second_part b'/' (codes "10-20/5") ≡ plus step)
    × (0 ≤ a)
    × (0 < step)
    × ((matches_part 25 (codes "10-20/5") ≡ true) ↔ ((a ≤ 25) × ((25 - a) % step ≡ 0)))
unfolding is_valid_part is_valid_base split
matches_part-range_step_example = matches_part-range_step 0 59 25 (codes "10-20/5") refl refl refl

-- The range ends at 20, and 25 is matched.
range_test : (matches_part 25 (codes "10-20/5") ≡ true) × (matches_part 25 (codes "10-20") ≡ false)
unfolding matches_part split
range_test = (refl, refl)
