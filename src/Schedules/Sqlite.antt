-- ===== src/Schedules/Sqlite.antt =====
-- `SQLiteScheduleStore` of packages/database/src/schedule-store.ts: the table `schedules` as its rows,
-- and each SQL statement of the class as the function on rows that it stands for. `JSON.stringify`
-- and `JSON.parse` of an intent, and the order that ORDER BY gives rows of equal time, are parameters.
pub mod Rows
pub mod Simulation
use evergent.Base.{
  ℕ, Bool, true, not, ◌&&◌, List, [], ◌∷◌, ◌++◌, map, Option, none, some, String, if◌then◌else◌,
  filterb, take, any, leb, str_eq,
}
use evergent.Base.Result.{Result, ok, error}
use evergent.Shared.{AgentIntent}
use evergent.Schedules.{ScheduleStatus, ScheduleRecord, SchedulePatch, is_running}

-- A status and a time stand for the text in their column; `Json` is the type of the JSON texts.
pub record ScheduleRow (Json : Type 0) : Type 0 where
  pub id : String
  pub agent_id : String
  pub owner_id : String
  pub status : ScheduleStatus
  pub intent_json : Json
  pub schedule_expression : String
  pub timezone : String
  pub next_run_at : ℕ
  pub last_run_at : Option ℕ
  pub created_at : ℕ
  pub updated_at : ℕ

abbrev pub ScheduleTable : Type 0 → Type 0
ScheduleTable Json = List (ScheduleRow Json)

module _ {Json : Type 0} where
  -- `WHERE id = ?`
  abbrev pub has_id : String → ScheduleRow Json → Bool
  has_id id row = str_eq row.id id

  -- `SELECT * FROM schedules WHERE id = ?`, with the driver's `get`: the first row of the result
  unfoldable pub select_row : String → ScheduleTable Json → Option (ScheduleRow Json)
  select_row id [] = none
  select_row id (row ∷ t) = if has_id id row then some row else select_row id t

  -- What `UPDATE schedules SET ... WHERE id = @id` writes: no agent, no owner, no time of creation.
  abbrev pub assign : ScheduleRow Json → ScheduleRow Json → ScheduleRow Json
  assign new row = record row {
    status = new.status;
    intent_json = new.intent_json;
    schedule_expression = new.schedule_expression;
    timezone = new.timezone;
    next_run_at = new.next_run_at;
    last_run_at = new.last_run_at;
    updated_at = new.updated_at;
  }

  unfoldable pub update_rows : ScheduleRow Json → ScheduleTable Json → ScheduleTable Json
  update_rows new [] = []
  update_rows new (row ∷ t) =
      (if has_id new.id row then assign new row else row) ∷ update_rows new t

module _ {Json : Type 0} (stringify : AgentIntent → Json) (parse : Json → AgentIntent) where
  abbrev pub to_row : ScheduleRecord → ScheduleRow Json
  to_row r = record {
    id = r.id;
    agent_id = r.agent_id;
    owner_id = r.owner_id;
    status = r.status;
    intent_json = stringify r.intent;
    schedule_expression = r.schedule_expression;
    timezone = r.timezone;
    next_run_at = r.next_run_at;
    last_run_at = r.last_run_at;
    created_at = r.created_at;
    updated_at = r.updated_at;
  }

  -- `rowToScheduleRecord`
  abbrev pub to_record : ScheduleRow Json → ScheduleRecord
  to_record row = record {
    id = row.id;
    agent_id = row.agent_id;
    owner_id = row.owner_id;
    status = row.status;
    intent = parse row.intent_json;
    schedule_expression = row.schedule_expression;
    timezone = row.timezone;
    next_run_at = row.next_run_at;
    last_run_at = row.last_run_at;
    created_at = row.created_at;
    updated_at = row.updated_at;
  }

  -- INSERT throws where the primary key is taken.
  unfoldable pub insert_schedule :
      ScheduleRecord → ScheduleTable Json → ScheduleTable Json × Result ScheduleRecord
  insert_schedule r t =
      if any (has_id r.id) t
      then (t, error "UNIQUE constraint failed: schedules.id")
      else (t ++ (to_row r ∷ []), ok r)

  unfoldable pub find_schedule : String → ScheduleTable Json → Option ScheduleRecord
  unfolding select_row
  find_schedule id t = elim (select_row id t) [ none ↦ none | some row ↦ some (to_record row) ]

  -- `{ ...existing, ...patch, id: existing.id, updatedAt: new Date().toISOString() }`
  abbrev pub overwritten : ℕ → SchedulePatch → ScheduleRecord → ScheduleRecord
  overwritten now patch existing = record (patch existing) { id = existing.id; updated_at = now }

  unfoldable pub overwrite_schedule :
      ℕ → String → SchedulePatch → ScheduleTable Json → ScheduleTable Json × Option ScheduleRecord
  unfolding find_schedule update_rows
  overwrite_schedule now id patch t = elim (find_schedule id t) [
    | none ↦ (t, none)
    | some existing ↦ (
      update_rows (to_row (overwritten now patch existing)) t,
      some (overwritten now patch existing),
    )
  ]

  -- `DELETE FROM schedules WHERE id = ?`, and whether a row was there
  unfoldable pub remove_schedule : String → ScheduleTable Json → ScheduleTable Json × Bool
  remove_schedule id t = (filterb (λ row. not (has_id id row)) t, any (has_id id) t)

  -- The lists. `order_by` is `ORDER BY next_run_at ASC`.
  module _ (order_by : List (ScheduleRow Json) → List (ScheduleRow Json)) where
    abbrev pub select_by_agent : String → ℕ → ScheduleTable Json → List ScheduleRecord
    select_by_agent agent_id limit t =
        map to_record (take limit (order_by (filterb (λ row. str_eq row.agent_id agent_id) t)))

    abbrev pub select_by_owner : String → ℕ → ScheduleTable Json → List ScheduleRecord
    select_by_owner owner_id limit t =
        map to_record (take limit (order_by (filterb (λ row. str_eq row.owner_id owner_id) t)))

    abbrev pub row_is_due : ℕ → ScheduleRow Json → Bool
    row_is_due before row = is_running row.status && leb row.next_run_at before

    unfoldable pub select_due : ℕ → ℕ → ScheduleTable Json → List ScheduleRecord
    select_due before limit t =
        map to_record (take limit (order_by (filterb (row_is_due before) t)))
