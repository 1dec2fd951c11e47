-- ===== src/Schedules/Listing.antt =====
-- What `listDue` of `InMemoryScheduleStore` lists.
use evergent.Base.{
  ℕ, Bool, true, ◌≡◌, ◌∙◌, ◌≤◌, some, String, All, All-take, All-filterb, filterb-All, filterb, any,
  length, take_all, arith,
}
use evergent.Base.Sort.{sort, sort-All, any-sort, length-sort}
use evergent.Base.StringMap.{get, values, IsKeyed, values-IsStored, any-filterb}
use evergent.Schedules.{ScheduleRecord, ScheduleStore, earliest_first, is_due, list_due}

-- Every listed schedule is due, and is stored as it is listed.
pub list_due-is_due :
    (before limit : ℕ) (s : ScheduleStore)
    → All (λ r. is_due before r ≡ true) (list_due before limit s)
unfolding list_due
list_due-is_due before limit s = All-take _ limit _ (
    sort-All earliest_first _ (filterb (is_due before) (values s))
      (All-filterb (is_due before) (values s)))

pub list_due-IsStored :
    (before limit : ℕ) (s : ScheduleStore)
    → IsKeyed (λ r. r.id) s
    → All (λ r. get r.id s ≡ some r) (list_due before limit s)
unfolding list_due
list_due-IsStored before limit s keyed = All-take _ limit _ (
    sort-All earliest_first _ (filterb (is_due before) (values s))
      (filterb-All _ _ (values s) (values-IsStored (λ r. r.id) s keyed)))

-- Where the limit allows for all due schedules, each of them is listed.
pub any-list_due :
    (p : ScheduleRecord → Bool) (before limit : ℕ) (s : ScheduleStore) (id : String)
    (e : ScheduleRecord)
    → length (filterb (is_due before) (values s)) ≤ limit
    → get id s ≡ some e
    → is_due before e ≡ true
    → p e ≡ true
    → any p (list_due before limit s) ≡ true
unfolding list_due
any-list_due p before limit s id e few at due h =
    let listed = filterb (is_due before) (values s) in
    rw
      (take_all limit (sort earliest_first listed)
        (omega (arith, length-sort earliest_first listed)))
      (any-sort earliest_first p listed ∙ any-filterb p (is_due before) id e s at due h)
