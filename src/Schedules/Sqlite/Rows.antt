-- ===== src/Schedules/Sqlite/Rows.antt =====
-- What each statement of `SQLiteScheduleStore` does to the row under every id.
use evergent.Base.{
  not, [], ◌∷◌, ◌++◌, Option, none, some, String, if◌then◌else◌, filterb, any, str_eq, is_some,
  or_else, ◌≡◌, refl, arith, eq_iff,
}
use evergent.Schedules.Sqlite.{ScheduleRow, ScheduleTable, has_id, select_row, assign, update_rows}

module _ {Json : Type 0} where
  pub any-has_id :
      (id : String) (t : ScheduleTable Json) → any (has_id id) t ≡ is_some (select_row id t)
  unfolding select_row
  any-has_id id [] = refl
  any-has_id id (row ∷ t) = ground (arith, any-has_id id t)

  pub select_row-append :
      (j : String) (t : ScheduleTable Json) (new : ScheduleRow Json)
      → select_row j (t ++ (new ∷ []))
        ≡ or_else (select_row j t) (if str_eq new.id j then some new else none)
  unfolding select_row
  select_row-append j [] new = refl
  select_row-append j (row ∷ t) new = ground (arith, select_row-append j t new)

  abbrev pub assigned : ScheduleRow Json → Option (ScheduleRow Json) → Option (ScheduleRow Json)
  assigned new none = none
  assigned new (some row) = some (assign new row)

  pub select_row-update_rows :
      (j : String) (new : ScheduleRow Json) (t : ScheduleTable Json)
      → select_row j (update_rows new t)
        ≡ (if str_eq new.id j then assigned new (select_row j t) else select_row j t)
  unfolding select_row update_rows
  select_row-update_rows j new [] = ground arith
  select_row-update_rows j new (row ∷ t) = ground (
    arith,
    select_row-update_rows j new t,
    eq_iff row.id new.id,
    eq_iff row.id j,
    eq_iff new.id j,
  )

  pub select_row-filterb :
      (j id : String) (t : ScheduleTable Json)
      → select_row j (filterb (λ row. not (has_id id row)) t)
        ≡ (if str_eq id j then none else select_row j t)
  unfolding select_row
  select_row-filterb j id [] = ground arith
  select_row-filterb j id (row ∷ t) =
      ground (arith, select_row-filterb j id t, eq_iff row.id id, eq_iff row.id j, eq_iff id j)

  -- A row that is found has the id.
  pub select_row_id :
      (id : String) (t : ScheduleTable Json) (row : ScheduleRow Json)
      → select_row id t ≡ some row
      → row.id ≡ id
  unfolding select_row
  select_row_id id [] row h = cc
  select_row_id id (first ∷ t) row h = ground (arith, select_row_id id t row, eq_iff first.id id)
