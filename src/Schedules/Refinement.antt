-- ===== src/Schedules/Refinement.antt =====
-- Both schedule stores of packages/database/src/schedule-store.ts against the abstract store.
use evergent.Base.{List, [], none, ◌≡◌, refl}
use evergent.Base.StringMap.{get}
use evergent.Shared.{AgentIntent}
use evergent.Schedules.Sqlite.{select_row}
use evergent.Schedules.Calls.{Call, answers, abstract_step, AreAllowed, answers-simulated}
use evergent.Schedules.Memory.{memory_step, IsShown, memory-simulates}
use evergent.Schedules.Sqlite.Simulation.{sqlite_step, IsTabled, sqlite-simulates}

module _ {Json : Type 0} (stringify : AgentIntent → Json) (parse : Json → AgentIntent)
    (parse-stringify : (i : AgentIntent) → parse (stringify i) ≡ i) where
  -- Both stores, the one in memory and the one on SQLite, start empty and answer every list of calls
  -- of create, get, update and delete as one abstract function from ids to records does, provided
  -- that each created record has an id that no stored record has, that patches leave a record's id,
  -- agent, owner and time of creation, and that an intent is parsed back from its JSON text.
  pub stores_refine :
      (calls : List Call)
      → AreAllowed calls (λ id. none)
      → (answers memory_step calls [] ≡ answers abstract_step calls (λ id. none))
        × (answers (sqlite_step stringify parse) calls []
            ≡ answers abstract_step calls (λ id. none))
  unfolding get select_row
  stores_refine calls allowed = (
    answers-simulated memory_step IsShown memory-simulates calls [] (λ id. none) (tt, (λ j. refl))
        allowed,
    answers-simulated (sqlite_step stringify parse) (IsTabled stringify parse parse-stringify)
        (sqlite-simulates stringify parse parse-stringify) calls [] (λ id. none) (λ j. refl)
        allowed,
  )
