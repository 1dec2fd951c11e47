-- ===== src/Tests/StoreTests.antt =====
-- The activity log at concrete amounts and keys.
use evergent.Base.{◌≡◌, refl, ◌⊎◌, false, [], ◌∷◌}
use evergent.Base.StringMap.{get, set}
use evergent.Activity.{ActivityStore, reserve_daily_spending, record_idempotent}
use evergent.Activity.Spending.{spent, reserve_all, granted, total, reserve_all_lem}
use evergent.Activity.Idempotency.{record_idempotent_twice}
use evergent.Tests.Samples.{whole, activity, parse_whole}

abbrev empty : ActivityStore whole
empty = record { records = []; daily_spending = [] }

-- 60 and 30 fit into 100, another 20 does not.
granted_test :
    granted whole "2026-01-01" "a1" "XLM" "100" ("60" ∷ "30" ∷ "20" ∷ []) empty ≡ "60" ∷ "30" ∷ []
unfolding granted reserve_daily_spending get set parse_whole
granted_test = refl

reserve_all_lem_example :
    (spent whole "d" "a1" "XLM" "100"
        (reserve_all whole "d" "a1" "XLM" "100" ("60" ∷ "70" ∷ []) empty)
      ≡ total whole "d" "a1" "XLM" "100"
          (spent whole "d" "a1" "XLM" "100" empty)
          (granted whole "d" "a1" "XLM" "100" ("60" ∷ "70" ∷ []) empty))
    × ((granted whole "d" "a1" "XLM" "100" ("60" ∷ "70" ∷ []) empty ≡ [])
        ⊎ (whole.lt (parse_whole "100") (
              spent whole "d" "a1" "XLM" "100"
                (reserve_all whole "d" "a1" "XLM" "100" ("60" ∷ "70" ∷ []) empty))
            ≡ false))
reserve_all_lem_example = reserve_all_lem whole "d" "a1" "XLM" "100" ("60" ∷ "70" ∷ []) empty

record_idempotent_twice_example :
    let (s', x, created) = record_idempotent whole "k" (activity "x1" "10") empty in
    record_idempotent whole "k" (activity "x2" "99") s' ≡ (s', x, false)
record_idempotent_twice_example =
    record_idempotent_twice whole "k" (activity "x1" "10") (activity "x2" "99") empty refl refl
