-- ===== src/Coordinator/Steps.antt =====
-- The steps of the coordinator of apps/api/src/account-sequence-coordinator.ts.
use evergent.Base.{ℕ, String, some, ◌≡◌}
use evergent.Coordinator.{
  waiting, running, settled, Task, Coordinator, run_exclusive, set_status, clean_up, IsReady,
}

-- A call, the start of a task whose turn it is, and its end, by a result or an error.
pub data Step : Coordinator → Coordinator → Type 0 where
  call : (a : String) (s : Coordinator) → Step s (run_exclusive a s)
  start :
      (i : ℕ) (t : Task) (s : Coordinator)
      → s.tasks i ≡ some t
      → t.status ≡ waiting
      → IsReady s t
      → Step s (set_status i t running s)
  settle :
      (i : ℕ) (t : Task) (s : Coordinator)
      → s.tasks i ≡ some t
      → t.status ≡ running
      → Step s (set_status i t settled s)

-- Runs from a state: these steps, and after the end of a task the clean-up that its call has put on
-- its tail.
pub data Reach (s0 : Coordinator) : Coordinator → Type 0 where
  begin_here : Reach s0 s0
  and_step : (s s' : Coordinator) → Reach s0 s → Step s s' → Reach s0 s'
  and_clean_up :
      (i : ℕ) (t : Task) (s : Coordinator)
      → Reach s0 s
      → s.tasks i ≡ some t
      → t.status ≡ settled
      → Reach s0 (clean_up t s)
