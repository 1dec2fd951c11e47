-- ===== src/Execution/Store/Listing.antt =====
-- What `listDue` hands to the queue: only due records, the earliest retry first, in bounded number.
use evergent.Base.{
  any, String, ◌∙◌, sym, str_eq, eq_iff, some, filterb-All, take_all, Perm, ℕ, zero, suc, ◌≤◌, ◌≡◌,
  true, List, [], ◌∷◌, arith, All, All-take, All-filterb, filterb, length, length-take, take,
}
use evergent.Base.Sort.{any-sort, length-sort, sort-perm, sort, sort-All, sort-IsSorted, IsSorted}
use evergent.Base.StringMap.{values, get, values-IsStored, any-filterb, get-IsKeyed}
use evergent.Execution.Store.Laws.{IsWellFormed}
use evergent.Execution.{executing, submitted, is_status, ExecutionRecord}
use evergent.Execution.Store.{
  Store, oldest_first, max_limit, list_stuck_executing, list_submitted, list_due, is_due,
  safe_limit, retry_order,
}

pub list_due-is_due :
    (before limit : ℕ) (s : Store) → All (λ r. is_due before r ≡ true) (list_due before limit s)
unfolding list_due
list_due-is_due before limit s = All-take _ (safe_limit limit) _ (
    sort-All retry_order _ (filterb (is_due before) (values s))
      (All-filterb (is_due before) (values s)))

IsSorted-take :
    (n : ℕ) (xs : List ExecutionRecord) → IsSorted retry_order xs → IsSorted retry_order (take n xs)
IsSorted-take zero xs h = tt
IsSorted-take (suc n) [] h = tt
IsSorted-take (suc n) (x ∷ xs) h = (All-take _ n xs h.0, IsSorted-take n xs h.1)

pub list_due-IsSorted :
    (before limit : ℕ) (s : Store) → IsSorted retry_order (list_due before limit s)
unfolding list_due
list_due-IsSorted before limit s = IsSorted-take (safe_limit limit) _ (
    sort-IsSorted retry_order (λ x y h. ground arith) (λ x y z h k. ground arith)
      (filterb (is_due before) (values s)))

pub list_due-bounded : (before limit : ℕ) (s : Store) → length (list_due before limit s) ≤ 200
unfolding list_due
list_due-bounded before limit s =
    omega (
      arith,
      length-take (safe_limit limit) (sort retry_order (filterb (is_due before) (values s))),
    )

-- With at most as many due records as the limit allows, all of them are listed.
pub list_due-perm :
    (before limit : ℕ) (s : Store)
    → length (filterb (is_due before) (values s)) ≤ safe_limit limit
    → Perm (list_due before limit s) (filterb (is_due before) (values s))
unfolding list_due
list_due-perm before limit s h =
    let due = filterb (is_due before) (values s) in
    rw
      (take_all (safe_limit limit) (sort retry_order due)
        (omega (arith, length-sort retry_order due)))
      (sort-perm retry_order due)

-- `listDue` hands out due records only, ordered by the retry time with those that have none first,
-- and at most 200.
pub list_due_lem :
    (before limit : ℕ) (s : Store)
    → All (λ r. is_due before r ≡ true) (list_due before limit s)
      × IsSorted retry_order (list_due before limit s)
      × (length (list_due before limit s) ≤ 200)
list_due_lem before limit s = (
  list_due-is_due before limit s,
  list_due-IsSorted before limit s,
  list_due-bounded before limit s,
)

abbrev pub stuck_in : Store → List ExecutionRecord
stuck_in s = filterb (λ r. is_status r.status executing) (values s)

abbrev pub submitted_in : Store → List ExecutionRecord
submitted_in s = filterb (λ r. is_status r.status submitted) (values s)

-- Listed records are stored as they are listed.
pub list_stuck_executing-IsStored :
    (limit : ℕ) (s : Store)
    → IsWellFormed s
    → All (λ r. get r.id s ≡ some r) (list_stuck_executing limit s)
unfolding list_stuck_executing
list_stuck_executing-IsStored limit s wf = All-take _ (safe_limit limit) _ (
    sort-All oldest_first _ (stuck_in s)
      (filterb-All _ _ (values s) (values-IsStored (λ r. r.id) s wf)))

pub list_submitted-IsStored :
    (limit : ℕ) (s : Store)
    → IsWellFormed s
    → All (λ r. get r.id s ≡ some r) (list_submitted limit s)
unfolding list_submitted
list_submitted-IsStored limit s wf = All-take _ (safe_limit limit) _ (
    sort-All oldest_first _ (submitted_in s)
      (filterb-All _ _ (values s) (values-IsStored (λ r. r.id) s wf)))

own :
    (j : String) (e : ExecutionRecord) (s : Store)
    → IsWellFormed s
    → get j s ≡ some e
    → str_eq e.id j ≡ true
own j e s wf at = (eq_iff e.id j).1 (sym (get-IsKeyed (λ r. r.id) j e s wf at))

pub list_due-IsStored :
    (before limit : ℕ) (s : Store)
    → IsWellFormed s
    → All (λ r. get r.id s ≡ some r) (list_due before limit s)
unfolding list_due
list_due-IsStored before limit s wf = All-take _ (safe_limit limit) _ (
    sort-All retry_order _ (filterb (is_due before) (values s))
      (filterb-All _ _ (values s) (values-IsStored (λ r. r.id) s wf)))

pub list_due-listed :
    (before : ℕ) (s : Store) (j : String) (e : ExecutionRecord)
    → IsWellFormed s
    → length (filterb (is_due before) (values s)) ≤ 50
    → get j s ≡ some e
    → is_due before e ≡ true
    → any (λ r. str_eq r.id j) (list_due before 50 s) ≡ true
unfolding list_due
list_due-listed before s j e wf few at h =
    let p = λ (r : ExecutionRecord). str_eq r.id j in
    let due = filterb (is_due before) (values s) in
    rw (take_all 50 (sort retry_order due) (omega (arith, length-sort retry_order due)))
      (any-sort retry_order p due ∙ any-filterb p (is_due before) j e s at h (own j e s wf at))

pub list_stuck_executing-listed :
    (s : Store) (j : String) (e : ExecutionRecord)
    → IsWellFormed s
    → length (stuck_in s) ≤ 200
    → get j s ≡ some e
    → is_status e.status executing ≡ true
    → any (λ r. str_eq r.id j) (list_stuck_executing max_limit s) ≡ true
unfolding list_stuck_executing
list_stuck_executing-listed s j e wf few at h =
    let p = λ (r : ExecutionRecord). str_eq r.id j in
    rw
      (take_all 200 (sort oldest_first (stuck_in s))
        (omega (arith, length-sort oldest_first (stuck_in s))))
      (any-sort oldest_first p (stuck_in s)
        ∙ any-filterb p (λ r. is_status r.status executing) j e s at h (own j e s wf at))

pub list_submitted-listed :
    (s : Store) (j : String) (e : ExecutionRecord)
    → IsWellFormed s
    → length (submitted_in s) ≤ 200
    → get j s ≡ some e
    → is_status e.status submitted ≡ true
    → any (λ r. str_eq r.id j) (list_submitted max_limit s) ≡ true
unfolding list_submitted
list_submitted-listed s j e wf few at h =
    let p = λ (r : ExecutionRecord). str_eq r.id j in
    rw
      (take_all 200 (sort oldest_first (submitted_in s))
        (omega (arith, length-sort oldest_first (submitted_in s))))
      (any-sort oldest_first p (submitted_in s)
        ∙ any-filterb p (λ r. is_status r.status submitted) j e s at h (own j e s wf at))
