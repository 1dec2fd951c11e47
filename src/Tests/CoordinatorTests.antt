-- ===== src/Tests/CoordinatorTests.antt =====
-- Two calls of `runExclusive` for one account.
use evergent.Base.{ℕ, ◌≡◌, ◌≢◌, refl, ◌<◌, some, none, Option}
use evergent.Coordinator.{
  Coordinator, Task, TaskStatus, set_status, clean_up, waiting, running, settled, initial,
  run_exclusive,
}
use evergent.Coordinator.Steps.{Reach, begin_here, and_step, and_clean_up, call, start, settle}
use evergent.Coordinator.Exclusion.{Reach-excludes}
use evergent.Coordinator.Overlap.{Overlaps, clean_up-Overlaps}

abbrev once : Coordinator
once = run_exclusive "GA" initial

abbrev twice : Coordinator
twice = run_exclusive "GA" once

abbrev task : ℕ → Option ℕ → TaskStatus → Task
task queue previous status = record {
  account = "GA";
  queue = queue;
  previous = previous;
  status = status;
}

-- The first task runs and settles, its clean-up forgets the queue, and the second task starts.
abbrev first_runs : Coordinator
first_runs = set_status 0 (task 0 none waiting) running twice

abbrev first_done : Coordinator
first_done = set_status 0 (task 0 none running) settled first_runs

abbrev forgotten : Coordinator
forgotten = clean_up (task 0 none settled) first_done

abbrev second_runs : Coordinator
second_runs = set_status 1 (task 0 (some 0) waiting) running forgotten

twice-Reach : Reach initial twice
twice-Reach =
    and_step once twice (and_step initial once begin_here (call "GA" initial)) (call "GA" once)

first_done-Reach : Reach initial first_done
unfolding run_exclusive
first_done-Reach =
    and_step first_runs first_done
      (and_step twice first_runs twice-Reach (start 0 (task 0 none waiting) twice refl refl tt))
      (settle 0 (task 0 none running) first_runs refl refl)

second_runs-Reach : Reach initial second_runs
unfolding run_exclusive clean_up
second_runs-Reach =
    and_step forgotten second_runs
      (and_clean_up 0 (task 0 none settled) first_done first_done-Reach refl refl)
      (start 1 (task 0 (some 0) waiting) forgotten refl refl (task 0 none settled, refl, refl))

Reach-excludes_example :
    ((task 0 none settled).account ≡ (task 0 (some 0) running).account)
    × (0 < 1 → (task 0 (some 0) running).status ≢ waiting → (task 0 none settled).status ≡ settled)
    × ((task 0 none settled).status ≡ running
        → (task 0 (some 0) running).status ≡ running
        → ◌≡◌ {A = ℕ} 0 1)
unfolding run_exclusive clean_up
Reach-excludes_example =
    Reach-excludes second_runs second_runs-Reach 0 1 (task 0 none settled) (task 0 (some 0) running)
      refl refl refl

clean_up-Overlaps_example : (s : Coordinator) × Reach initial s × Overlaps "GA" s
clean_up-Overlaps_example = clean_up-Overlaps "GA" initial refl
