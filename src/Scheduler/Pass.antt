-- ===== src/Scheduler/Pass.antt =====
-- What a pass of the scheduler runs, and that a pass at the same time runs nothing again.
use evergent.Base.{
  ℕ, List, [], ◌∷◌, Option, none, some, String, ◌≡◌, ◌≢◌, ◌≤◌, ◌↔◌, ◌∙◌, ap, refl, filterb,
  Bool-cases, inl, inr, true, not, All, All-map, and-eq-true, arith,
}
use evergent.Base.Result.{Result}
use evergent.Agents.{AgentStatus, is_active}
use evergent.Schedules.{
  ScheduleRecord, ScheduleStatus, active, paused, disabled, is_running, is_due, list_due,
}
use evergent.Schedules.Listing.{list_due-is_due}
use evergent.Schedules.Validation.{Calendar}
use evergent.Scheduler.{
  AgentInfo, SchedulerState, run_schedule, count_of, is_eligible, run_each, run_due,
  is_agent_active, ran_at,
}

-- A schedule that a pass at a time has to run, if it is listed.
abbrev pub CanRun : (String → Option AgentInfo) → ℕ → ScheduleRecord → Type 0
CanRun agent_of now r =
    (r.status ≡ active)
    × ((a : AgentInfo) × (agent_of r.agent_id ≡ some a) × (a.status ≡ AgentStatus.active))
    × (r.last_run_at ≢ some now)

is_running→active : (s : ScheduleStatus) → is_running s ≡ true → s ≡ active
is_running→active active h = refl
is_running→active paused h = ground (arith, h)
is_running→active disabled h = ground (arith, h)

is_active→active : (s : AgentStatus) → is_active s ≡ true → s ≡ AgentStatus.active
is_active→active AgentStatus.active h = refl
is_active→active AgentStatus.paused h = ground (arith, h)
is_active→active AgentStatus.disabled h = ground (arith, h)

is_agent_active→found :
    (o : Option AgentInfo)
    → is_agent_active o ≡ true
    → (a : AgentInfo) × (o ≡ some a) × (a.status ≡ AgentStatus.active)
is_agent_active→found none h = ground (arith, h)
is_agent_active→found (some a) h = (a, refl, is_active→active a.status h)

ran_at-now : (now : ℕ) → ran_at now (some now) ≡ true
ran_at-now now = ground arith

differs→not_ran : (now : ℕ) (o : Option ℕ) → o ≢ some now → not (ran_at now o) ≡ true
differs→not_ran now none h = refl
differs→not_ran now (some t) h = elim (Bool-cases (ran_at now (some t))) [
  | inl same ↦ absurd (h (ap some (ground (arith, same))))
  | inr differs ↦ ap not differs
]

is_eligible→CanRun :
    (agent_of : String → Option AgentInfo) (now : ℕ) (r : ScheduleRecord)
    → is_eligible agent_of now r ≡ true
    → CanRun agent_of now r
unfolding is_eligible
is_eligible→CanRun agent_of now r h =
    let runs : is_running r.status ≡ true = ground (arith, h) in
    let found : is_agent_active (agent_of r.agent_id) ≡ true = ground (arith, h) in
    let fresh : not (ran_at now r.last_run_at) ≡ true = ground (arith, h) in
    (
      is_running→active r.status runs,
      is_agent_active→found (agent_of r.agent_id) found,
      λ same. ground (arith, ap (ran_at now) same ∙ ran_at-now now, fresh),
    )

CanRun→is_eligible :
    (agent_of : String → Option AgentInfo) (now : ℕ) (r : ScheduleRecord)
    → CanRun agent_of now r
    → is_eligible agent_of now r ≡ true
unfolding is_eligible
CanRun→is_eligible agent_of now r (running, (a, found, ready), fresh) =
    rw running (rw found (rw ready (differs→not_ran now r.last_run_at fresh)))

due_at :
    (now : ℕ) (r : ScheduleRecord)
    → is_due now r ≡ true
    → (r.status ≡ active) × (r.next_run_at ≤ now)
due_at now r h =
    let (runs, past) = and-eq-true (is_running r.status) _ h in
    (is_running→active r.status runs, ground (arith, past))

module _ {W R : Type 0} (clock : W → ℕ) (cal : Calendar)
    (execute : ScheduleRecord → ℕ → W → W × Result R) where
  -- The runs of a list of schedules, each of them.
  abbrev pub run_all : ℕ → List ScheduleRecord → SchedulerState W → ℕ → SchedulerState W × ℕ
  run_all now [] st executed = (st, executed)
  run_all now (r ∷ rs) st executed =
      let run = run_schedule clock cal execute r now st in
      run_all now rs run.0 (count_of run.1 executed)

  run_each_lem :
      (agent_of : String → Option AgentInfo) (now : ℕ) (due : List ScheduleRecord)
      (st : SchedulerState W) (executed : ℕ)
      → run_each clock cal execute agent_of now due st executed
        ≡ run_all now (filterb (is_eligible agent_of now) due) st executed
  unfolding run_each
  run_each_lem agent_of now [] st executed = refl
  run_each_lem agent_of now (r ∷ due) st executed =
      let run = run_schedule clock cal execute r now st in
      elim (Bool-cases (is_eligible agent_of now r)) [
        | inl eligible ↦ rw eligible (run_each_lem agent_of now due run.0 (count_of run.1 executed))
        | inr skipped ↦ rw skipped (run_each_lem agent_of now due st executed)
      ]

  -- A pass runs, each of them once and in the order of the list, the listed schedules that are
  -- active, whose agent is found and is active, and whose last run is not the pass's time: no other
  -- is run, and every listed one is active with its next run not after that time.
  pub run_due_lem :
      (agent_of : String → Option AgentInfo) (now : ℕ) (st : SchedulerState W)
      → (run_due clock cal execute agent_of now st
          ≡ run_all now (filterb (is_eligible agent_of now) (list_due now 100 st.schedules)) st 0)
        × ((r : ScheduleRecord) → (is_eligible agent_of now r ≡ true) ↔ CanRun agent_of now r)
        × All (λ r. (r.status ≡ active) × (r.next_run_at ≤ now)) (list_due now 100 st.schedules)
  unfolding run_due
  run_due_lem agent_of now st = (
    run_each_lem agent_of now (list_due now 100 st.schedules) st 0,
    λ r. (is_eligible→CanRun agent_of now r, CanRun→is_eligible agent_of now r),
    All-map _ _ (λ r h. due_at now r h) (list_due now 100 st.schedules)
        (list_due-is_due now 100 st.schedules),
  )
