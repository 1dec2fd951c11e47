-- ===== src/Execution/Queue/Turns.antt =====
-- A record whose runs always fail comes to rest as a dead letter: passes of `processDue` of
-- apps/api/src/execution-queue.ts, one after another.
use evergent.Base.{
  ℕ, ◌+◌, ◌<◌, ◌≡◌, ◌≢◌, refl, sym, ◌∙◌, ap, subst, ◌⊎◌, inl, inr, Bool, true, false, ◌||◌, List,
  ◌∷◌, Option, some, String, arith, Bool-cases, if◌then◌else◌, leb, get_or_else,
}
use evergent.Base.StringMap.{get, set, get-set_self, get-set_ne, get-IsKeyed, IsKeyed-set}
use evergent.Execution.{
  queued, executing, failed, dead_letter, ErrorClass, ExecutionRecord, is_status,
}
use evergent.Execution.Retry.{Thrown, compute_next_retry_at}
use evergent.Execution.Store.{Store, patched}
use evergent.Execution.Store.Laws.{
  IsWellFormed, update-IsWellFormed, update_if_status-won, update_if_status-cases,
}
use evergent.Execution.Queue.{
  QueueConfig, Executed, Queue, run_execution, process_records, claim, claim_patch, fail, finish,
}
use evergent.Execution.Queue.Outcomes.{
  IsFailure, finish_failure, fail-bounded, get-fail, get-finish_ne,
}

fail-IsWellFormed :
    (cfg : QueueConfig) (now : ℕ) (r : ExecutionRecord) (thrown : Thrown)
    (given : Option ErrorClass) (s : Store)
    → IsWellFormed s
    → IsWellFormed (fail cfg now r thrown given s)
unfolding fail
fail-IsWellFormed cfg now r thrown given s wf =
    update-IsWellFormed r.id _ _ (update-IsWellFormed r.id _ s wf)

finish-IsWellFormed :
    (cfg : QueueConfig) (now : ℕ) (r : ExecutionRecord) (ex : Executed) (s : Store)
    → IsFailure ex
    → IsWellFormed s
    → IsWellFormed (finish cfg now r ex s)
finish-IsWellFormed cfg now r ex s bad wf =
    let (thrown, given, same) = finish_failure cfg now r ex s bad in
    subst IsWellFormed (sym same) (fail-IsWellFormed cfg now r thrown given s wf)

-- What a failing run at a time leaves of a record.
abbrev pub HasFailed : QueueConfig → ℕ → ExecutionRecord → ExecutionRecord → Type 0
HasFailed cfg now r x =
    (x.id ≡ r.id)
    × (x.attempt ≡ r.attempt + 1)
    × (((x.status ≡ failed)
          × (x.attempt < cfg.retry_policy.max_retries)
          × (x.next_retry_at ≡ some (compute_next_retry_at x.attempt cfg.retry_policy now)))
        ⊎ (x.status ≡ dead_letter))

fail_id :
    (cfg : QueueConfig) (now : ℕ) (r : ExecutionRecord) (thrown : Thrown)
    (given : Option ErrorClass) (s : Store) (e x : ExecutionRecord)
    → get r.id s ≡ some e
    → get r.id (fail cfg now r thrown given s) ≡ some x
    → x.id ≡ e.id
fail_id cfg now r thrown given s e x at got =
    let value = get-fail cfg now r thrown given s e at in ground (arith, value, got)

module _ (cfg : QueueConfig) (execute : ExecutionRecord → Executed)
    (bad : (x : ExecutionRecord) → IsFailure (execute x)) where
  finish-HasFailed :
      (now : ℕ) (r e : ExecutionRecord) (s : Store)
      → get r.id s ≡ some e
      → e.id ≡ r.id
      → (x : ExecutionRecord) × (get r.id (finish cfg now r (execute r) s) ≡ some x)
        × HasFailed cfg now r x
  finish-HasFailed now r e s at named =
      let (thrown, given, same) = finish_failure cfg now r (execute r) s (bad r) in
      let (x, got, counted, outcome) = fail-bounded cfg now r thrown given s e at in
      (
        x,
        ap (get r.id) same ∙ got,
        (
          fail_id cfg now r thrown given s e x at got ∙ named,
          counted,
          elim outcome [
            | inl (again, below, class, when) ↦ inl (again, below, when)
            | inr (dead, no_time, done) ↦ inr dead
          ],
        ),
      )

  -- The store after a worker that claims a stored record by its copy.
  abbrev pub ran : ℕ → ExecutionRecord → ExecutionRecord → Queue → Queue
  ran now y e q = record q {
    store = finish cfg now y (execute y) (set y.id (patched (claim_patch now) e) q.store);
  }

  -- One turn of the loop of `processDue`.
  abbrev pub turn : ℕ → ExecutionRecord → Queue → Queue
  turn now y q =
      (if is_status y.status executing then (q, false) else run_execution cfg execute now y q).0

  run_execution-cases :
      (now : ℕ) (y : ExecutionRecord) (q : Queue)
      → ((run_execution cfg execute now y q).0 ≡ q)
        ⊎ ((e : ExecutionRecord) × (get y.id q.store ≡ some e)
            × ((run_execution cfg execute now y q).0 ≡ ran now y e q))
  unfolding run_execution claim
  run_execution-cases now y q =
      elim (Bool-cases (is_status y.status queued || is_status y.status failed)) [
        | inr closed ↦ inl (rw closed refl)
        | inl open_one ↦ elim (update_if_status-cases y.id y.status (claim_patch now) q.store) [
          | inl (e, at, same, won) ↦ inr (e, at, rw open_one (rw won refl))
          | inr lost ↦ inl (rw open_one (rw lost refl))
        ]
      ]

  turn-cases :
      (now : ℕ) (y : ExecutionRecord) (q : Queue)
      → (turn now y q ≡ q)
        ⊎ ((e : ExecutionRecord) × (get y.id q.store ≡ some e) × (turn now y q ≡ ran now y e q))
  turn-cases now y q = elim (Bool-cases (is_status y.status executing)) [
    | inl busy ↦
        inl
          (ap (λ (b : Bool). (if b then (q, false) else run_execution cfg execute now y q).0) busy)
    | inr idle ↦
        let runs =
          ap (λ (b : Bool). (if b then (q, false) else run_execution cfg execute now y q).0) idle in
        elim (run_execution-cases now y q) [
          | inl same ↦ inl (runs ∙ same)
          | inr (e, at, done) ↦ inr (e, at, runs ∙ done)
        ]
  ]

  -- A stored record that is due is run at its turn.
  pub turn_due :
      (now : ℕ) (r : ExecutionRecord) (q : Queue)
      → get r.id q.store ≡ some r
      → (r.status ≡ queued) ⊎ (r.status ≡ failed)
      → turn now r q ≡ ran now r r q
  unfolding run_execution claim
  turn_due now r q at due =
      let idle : is_status r.status executing ≡ false = ground (arith, due) in
      let open_one : (is_status r.status queued || is_status r.status failed) ≡ true =
        ground (arith, due) in
      let won = update_if_status-won r.id r.status (claim_patch now) q.store r at refl in
      ap (λ (b : Bool). (if b then (q, false) else run_execution cfg execute now r q).0) idle
      ∙ rw open_one (rw won refl)

  pub turn-active :
      (now : ℕ) (y : ExecutionRecord) (q : Queue) → (turn now y q).active_count ≡ q.active_count
  turn-active now y q = elim (turn-cases now y q) [
    | inl same ↦ ap (λ p. p.active_count) same
    | inr (e, at, done) ↦ ap (λ p. p.active_count) done
  ]

  pub turn_ne :
      (now : ℕ) (y : ExecutionRecord) (q : Queue) (j : String)
      → y.id ≢ j
      → get j (turn now y q).store ≡ get j q.store
  turn_ne now y q j differs = elim (turn-cases now y q) [
    | inl same ↦ ap (λ p. get j p.store) same
    | inr (e, at, done) ↦
        ap (λ p. get j p.store) done
        ∙ get-finish_ne cfg now y (execute y) _ j differs
        ∙ get-set_ne j y.id (patched (claim_patch now) e) q.store differs
  ]

  pub turn-IsWellFormed :
      (now : ℕ) (y : ExecutionRecord) (q : Queue)
      → IsWellFormed q.store
      → IsWellFormed (turn now y q).store
  turn-IsWellFormed now y q wf = elim (turn-cases now y q) [
    | inl same ↦ subst (λ p. IsWellFormed p.store) (sym same) wf
    | inr (e, at, done) ↦
        subst (λ p. IsWellFormed p.store) (sym done)
          (finish-IsWellFormed cfg now y (execute y) _ (bad y) (
            IsKeyed-set (λ r. r.id) y.id (patched (claim_patch now) e) q.store
              (get-IsKeyed (λ r. r.id) y.id e q.store wf at) wf))
  ]

  -- The record has failed once more than it had when the pass began.
  abbrev pub Settled : ℕ → ExecutionRecord → Queue → Type 0
  Settled now r q = (x : ExecutionRecord) × (get r.id q.store ≡ some x) × HasFailed cfg now r x

  pub ran-Settled :
      (now : ℕ) (r e : ExecutionRecord) (q : Queue) → e.id ≡ r.id → Settled now r (ran now r e q)
  ran-Settled now r e q named =
      finish-HasFailed now r (patched (claim_patch now) e) _
        (get-set_self r.id (patched (claim_patch now) e) q.store) named

  -- Another turn by the same old copy leaves it so.
  pub turn-Settled :
      (now : ℕ) (r : ExecutionRecord) (q : Queue) → Settled now r q → Settled now r (turn now r q)
  turn-Settled now r q (x, at, (named, more, rest)) = elim (turn-cases now r q) [
    | inl same ↦ subst (Settled now r) (sym same) (x, at, (named, more, rest))
    | inr (e, there, done) ↦
        let x_is : x ≡ e = ap (λ o. get_or_else o x) (sym at ∙ there) in
        subst (Settled now r) (sym done) (ran-Settled now r e q (sym (ap (λ y. y.id) x_is) ∙ named))
  ]

  pub process_records-turn :
      (now : ℕ) (y : ExecutionRecord) (due : List ExecutionRecord) (q : Queue)
      → q.active_count < cfg.concurrency
      → (process_records cfg execute now (y ∷ due) q).0
        ≡ (process_records cfg execute now due (turn now y q)).0
  unfolding process_records
  process_records-turn now y due q free =
      let room : leb cfg.concurrency q.active_count ≡ false = ground arith in rw room refl

  pub turn_free :
      (now : ℕ) (y : ExecutionRecord) (q : Queue)
      → q.active_count < cfg.concurrency
      → (turn now y q).active_count < cfg.concurrency
  turn_free now y q free = subst (λ n. n < cfg.concurrency) (sym (turn-active now y q)) free
