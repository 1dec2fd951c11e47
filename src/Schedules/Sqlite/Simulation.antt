-- ===== src/Schedules/Sqlite/Simulation.antt =====
-- `SQLiteScheduleStore` of packages/database/src/schedule-store.ts call by call against the abstract
-- store.
use evergent.Base.{
  ℕ, true, false, [], ◌∷◌, ◌++◌, any, Option, none, some, String, str_eq, is_some, ◌≡◌, refl, sym,
  ap, subst, ◌∙◌, inl, inr, arith, eq_iff, Option-cases, Bool-cases,
}
use evergent.Base.Result.{Result, ok, error}
use evergent.Schedules.Sqlite.Rows.{
  any-has_id, select_row-append, select_row-update_rows, select_row-filterb, select_row_id,
}
use evergent.Shared.{AgentIntent}
use evergent.Schedules.{ScheduleRecord, SchedulePatch, patched}
use evergent.Schedules.Sqlite.{
  ScheduleRow, ScheduleTable, has_id, select_row, assign, update_rows, to_row, to_record,
  insert_schedule, find_schedule, overwritten, overwrite_schedule, remove_schedule,
}
use evergent.Schedules.Calls.{
  Call, create, look_up, change, drop, Answer, created, found, changed, dropped, failed, View, put,
  patch_option, abstract_step, KeepsIdentity, IsAllowed,
}

abbrev answer_of : Result ScheduleRecord → Answer
answer_of (ok r) = created r
answer_of (error message) = failed

module _ {Json : Type 0} (stringify : AgentIntent → Json) (parse : Json → AgentIntent) where
  abbrev pub sqlite_step : Call → ScheduleTable Json → ScheduleTable Json × Answer
  sqlite_step (create r) t =
      ((insert_schedule stringify parse r t).0, answer_of (insert_schedule stringify parse r t).1)
  sqlite_step (look_up id) t = (t, found (find_schedule stringify parse id t))
  sqlite_step (change now id patch) t = (
    (overwrite_schedule stringify parse now id patch t).0,
    changed (overwrite_schedule stringify parse now id patch t).1,
  )
  sqlite_step (drop id) t =
      ((remove_schedule stringify parse id t).0, dropped (remove_schedule stringify parse id t).1)

module _ {Json : Type 0} (stringify : AgentIntent → Json) (parse : Json → AgentIntent)
    (parse-stringify : (i : AgentIntent) → parse (stringify i) ≡ i) where
  abbrev read : Option (ScheduleRow Json) → Option ScheduleRecord
  read none = none
  read (some row) = some (to_record stringify parse row)

  -- The table shows each record under its id.
  abbrev pub IsTabled : ScheduleTable Json → View → Type 0
  IsTabled t v = (j : String) → read (select_row j t) ≡ v j

  find_schedule_lem :
      (id : String) (t : ScheduleTable Json)
      → find_schedule stringify parse id t ≡ read (select_row id t)
  unfolding find_schedule
  find_schedule_lem id t = ground arith

  to_record-to_row : (r : ScheduleRecord) → to_record stringify parse (to_row stringify parse r) ≡ r
  to_record-to_row r = rw (parse-stringify r.intent) refl

  -- What an update leaves in a row is what a patch makes of its record.
  to_record-assign :
      (now : ℕ) (patch : SchedulePatch) (row : ScheduleRow Json)
      → KeepsIdentity patch
      → to_record stringify parse (
          assign
            (to_row stringify parse
              (overwritten stringify parse now patch (to_record stringify parse row)))
            row)
        ≡ patched now patch (to_record stringify parse row)
  to_record-assign now patch row keeps =
      let e = to_record stringify parse row in
      let (id, agent_id, owner_id, created_at) = keeps e in
      rw (parse-stringify (patch e).intent, id, agent_id, owner_id, created_at) refl

  overwritten_lem :
      (now : ℕ) (patch : SchedulePatch) (e : ScheduleRecord)
      → KeepsIdentity patch
      → overwritten stringify parse now patch e ≡ patched now patch e
  overwritten_lem now patch e keeps = rw ((keeps e).0) refl

  appended :
      (r : ScheduleRecord) (t : ScheduleTable Json) (v : View)
      → IsTabled t v
      → select_row r.id t ≡ none
      → IsTabled (t ++ (to_row stringify parse r ∷ [])) (put r.id (some r) v)
  appended r t v shows absent j = elim (Bool-cases (str_eq r.id j)) [
    | inl same ↦
        let gone : select_row j t ≡ none =
          subst (λ i. select_row i t ≡ none) ((eq_iff r.id j).0 same) absent in
        let row : select_row j (t ++ (to_row stringify parse r ∷ []))
            ≡ some (to_row stringify parse r) =
          select_row-append j t (to_row stringify parse r) ∙ rw (gone, same) refl in
        let there : put r.id (some r) v j ≡ some r = rw same refl in
        ap read row ∙ ap some (to_record-to_row r) ∙ sym there
    | inr other ↦
        let row : select_row j (t ++ (to_row stringify parse r ∷ [])) ≡ select_row j t =
          select_row-append j t (to_row stringify parse r) ∙ ground (arith, other) in
        let there : put r.id (some r) v j ≡ v j = rw other refl in ap read row ∙ shows j ∙ sym there
  ]

  table_create :
      (r : ScheduleRecord) (t : ScheduleTable Json) (v : View)
      → IsTabled t v
      → v r.id ≡ none
      → IsTabled (insert_schedule stringify parse r t).0 (put r.id (some r) v)
        × (answer_of (insert_schedule stringify parse r t).1 ≡ created r)
  unfolding insert_schedule
  table_create r t v shows new =
      let absent : select_row r.id t ≡ none = ground (arith, shows r.id) in
      let free : any (has_id r.id) t ≡ false = ground (arith, any-has_id r.id t) in
      rw (free, insert_schedule) ((λ j. appended r t v shows absent j), refl)

  rewritten :
      (now : ℕ) (id : String) (patch : SchedulePatch) (t : ScheduleTable Json) (v : View)
      (row : ScheduleRow Json)
      → IsTabled t v
      → KeepsIdentity patch
      → select_row id t ≡ some row
      → IsTabled
          (update_rows
            (to_row stringify parse
              (overwritten stringify parse now patch (to_record stringify parse row)))
            t)
          (put id (some (patched now patch (to_record stringify parse row))) v)
  rewritten now id patch t v row shows keeps here j =
      let new =
        to_row stringify parse
          (overwritten stringify parse now patch (to_record stringify parse row)) in
      let own = select_row_id id t row here in
      elim (Bool-cases (str_eq id j)) [
        | inl same ↦
            let hit : str_eq new.id j ≡ true = ap (λ i. str_eq i j) own ∙ same in
            let at : select_row j t ≡ some row =
              subst (λ i. select_row i t ≡ some row) ((eq_iff id j).0 same) here in
            let there : put id (some (patched now patch (to_record stringify parse row))) v j
                ≡ some (patched now patch (to_record stringify parse row)) =
              rw same refl in
            let now_there : select_row j (update_rows new t) ≡ some (assign new row) =
              select_row-update_rows j new t ∙ rw (hit, at) refl in
            ap read now_there ∙ ap some (to_record-assign now patch row keeps) ∙ sym there
        | inr other ↦
            let miss : str_eq new.id j ≡ false = ap (λ i. str_eq i j) own ∙ other in
            let there : put id (some (patched now patch (to_record stringify parse row))) v j
                ≡ v j =
              rw other refl in
            let kept : select_row j (update_rows new t) ≡ select_row j t =
              select_row-update_rows j new t ∙ rw miss refl in
            ap read kept ∙ shows j ∙ sym there
      ]

  table_change :
      (now : ℕ) (id : String) (patch : SchedulePatch) (t : ScheduleTable Json) (v : View)
      → IsTabled t v
      → KeepsIdentity patch
      → IsTabled
          (overwrite_schedule stringify parse now id patch t).0
          (put id (patch_option now patch (v id)) v)
        × ((overwrite_schedule stringify parse now id patch t).1 ≡ patch_option now patch (v id))
  unfolding overwrite_schedule
  table_change now id patch t v shows keeps = elim (Option-cases (select_row id t)) [
    | inl gone ↦
        let none_there : v id ≡ none = sym (shows id) ∙ ap read gone in
        let unfound : find_schedule stringify parse id t ≡ none =
          find_schedule_lem id t ∙ ap read gone in
        rw (unfound, overwrite_schedule, none_there)
          ((λ j. shows j ∙ ground (arith, eq_iff id j)), refl)
    | inr (row, here) ↦
        let e = to_record stringify parse row in
        let there : v id ≡ some e = sym (shows id) ∙ ap read here in
        let hit : find_schedule stringify parse id t ≡ some e =
          find_schedule_lem id t ∙ ap read here in
        rw (hit, overwrite_schedule, there)
          (
            rewritten now id patch t v row shows keeps here,
            ap some (overwritten_lem now patch e keeps),
          )
  ]

  table_drop :
      (id : String) (t : ScheduleTable Json) (v : View)
      → IsTabled t v
      → IsTabled (remove_schedule stringify parse id t).0 (put id none v)
        × ((remove_schedule stringify parse id t).1 ≡ is_some (v id))
  unfolding remove_schedule
  table_drop id t v shows = (
    (λ j. ap read (select_row-filterb j id t) ∙ ground (arith, shows j)),
    any-has_id id t ∙ ground (arith, shows id),
  )

  pub sqlite-simulates :
      (c : Call) (t : ScheduleTable Json) (v : View)
      → IsTabled t v
      → IsAllowed c v
      → IsTabled (sqlite_step stringify parse c t).0 (abstract_step c v).0
        × ((sqlite_step stringify parse c t).1 ≡ (abstract_step c v).1)
  sqlite-simulates (create r) t v shows allowed = table_create r t v shows allowed
  sqlite-simulates (look_up id) t v shows allowed =
      (shows, ap found (find_schedule_lem id t ∙ shows id))
  sqlite-simulates (change now id patch) t v shows allowed =
      let (after, same) = table_change now id patch t v shows allowed in (after, ap changed same)
  sqlite-simulates (drop id) t v shows allowed =
      let (after, same) = table_drop id t v shows in (after, ap dropped same)
