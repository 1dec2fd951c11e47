-- ===== src/Execution/Queue/Passes.antt =====
-- A record whose runs always fail comes to rest as a dead letter: passes of `processDue` of
-- apps/api/src/execution-queue.ts, one after the other.
use evergent.Base.{
  ℕ, ◌+◌, ◌≤◌, ◌<◌, max, ◌≡◌, ◌≢◌, refl, sym, ◌∙◌, ap, subst, ◌⊎◌, inl, inr, Bool, true, ◌||◌, List,
  [], ◌∷◌, some, String, arith, Bool-cases, str_eq, eq_iff, any, All, All-map, All-both, length,
  filterb, get_or_else,
}
use evergent.Base.StringMap.{get, values}
use evergent.Execution.{queued, failed, dead_letter, ExecutionRecord, is_status}
use evergent.Execution.Retry.{RetryPolicy, compute_next_retry_at}
use evergent.Execution.Store.{is_due, list_due}
use evergent.Execution.Store.Laws.{IsWellFormed, is_status→eq}
use evergent.Execution.Store.Listing.{list_due-is_due, list_due-IsStored, list_due-listed}
use evergent.Execution.Queue.{QueueConfig, Executed, Queue, process_records, process_due}
use evergent.Execution.Queue.Outcomes.{IsFailure}
use evergent.Execution.Queue.Turns.{
  Settled, turn, ran-Settled, turn_due, turn-Settled, turn_ne, turn_free, turn-IsWellFormed,
  turn-active, process_records-turn,
}

-- Passes of the worker at the given times.
abbrev pub passes : QueueConfig → (ExecutionRecord → Executed) → List ℕ → Queue → Queue
passes cfg execute [] q = q
passes cfg execute (t ∷ times) q = passes cfg execute times (process_due cfg execute t q).0

-- Each time is later than the one before by at least a gap.
abbrev pub IsSpaced : ℕ → ℕ → List ℕ → Type 0
IsSpaced gap now [] = Unit
IsSpaced gap now (t ∷ times) = (now + gap ≤ t) × IsSpaced gap t times

-- No pass meets more due records than it lists.
abbrev pub AreFew : QueueConfig → (ExecutionRecord → Executed) → List ℕ → Queue → Type 0
AreFew cfg execute [] q = Unit
AreFew cfg execute (t ∷ times) q =
    (length (filterb (is_due t) (values q.store)) ≤ 50)
    × AreFew cfg execute times (process_due cfg execute t q).0

is_due-status :
    (now : ℕ) (r : ExecutionRecord)
    → is_due now r ≡ true
    → (r.status ≡ queued) ⊎ (r.status ≡ failed)
is_due-status now r h = elim (Bool-cases (is_status r.status queued)) [
  | inl q ↦ inl (is_status→eq r.status queued q)
  | inr other ↦ inr (is_status→eq r.status failed (ground (arith, h, other)))
]

dead_letter-not_due : (now : ℕ) (r : ExecutionRecord) → r.status ≡ dead_letter → is_due now r ≢ true
dead_letter-not_due now r dead h = elim (is_due-status now r h) [
  | inl q ↦ ground (arith, dead, q)
  | inr f ↦ ground (arith, dead, f)
]

-- A failed record is due once the greatest delay has passed.
retry-is_due :
    (policy : RetryPolicy) (now later : ℕ) (x : ExecutionRecord)
    → x.status ≡ failed
    → x.next_retry_at ≡ some (compute_next_retry_at x.attempt policy now)
    → now + policy.max_delay_ms ≤ later
    → is_due later x ≡ true
unfolding compute_next_retry_at
retry-is_due policy now later x again when apart = rw again (rw when (ground arith))

module _ (cfg : QueueConfig) (execute : ExecutionRecord → Executed)
    (bad : (x : ExecutionRecord) → IsFailure (execute x)) where
  process_records-active :
      (now : ℕ) (due : List ExecutionRecord) (q : Queue)
      → q.active_count < cfg.concurrency
      → (process_records cfg execute now due q).0.active_count ≡ q.active_count
  unfolding process_records
  process_records-active now [] q free = refl
  process_records-active now (y ∷ due) q free =
      ap (λ p. p.active_count) (process_records-turn cfg execute bad now y due q free)
      ∙ process_records-active now due (turn cfg execute bad now y q)
          (turn_free cfg execute bad now y q free)
      ∙ turn-active cfg execute bad now y q

  process_records-IsWellFormed :
      (now : ℕ) (due : List ExecutionRecord) (q : Queue)
      → q.active_count < cfg.concurrency
      → IsWellFormed q.store
      → IsWellFormed (process_records cfg execute now due q).0.store
  unfolding process_records
  process_records-IsWellFormed now [] q free wf = wf
  process_records-IsWellFormed now (y ∷ due) q free wf =
      subst (λ p. IsWellFormed p.store)
        (sym (process_records-turn cfg execute bad now y due q free))
        (process_records-IsWellFormed now due (turn cfg execute bad now y q)
          (turn_free cfg execute bad now y q free) (turn-IsWellFormed cfg execute bad now y q wf))

  -- A record that no listed record names is left alone.
  process_records-other :
      (now : ℕ) (due : List ExecutionRecord) (q : Queue) (j : String)
      → q.active_count < cfg.concurrency
      → All (λ y. y.id ≢ j) due
      → get j (process_records cfg execute now due q).0.store ≡ get j q.store
  unfolding process_records
  process_records-other now [] q j free others = refl
  process_records-other now (y ∷ due) q j free others =
      ap (λ p. get j p.store) (process_records-turn cfg execute bad now y due q free)
      ∙ process_records-other now due (turn cfg execute bad now y q) j
          (turn_free cfg execute bad now y q free) others.1
      ∙ turn_ne cfg execute bad now y q j others.0

  -- Once the record has failed, the rest of the pass leaves it so.
  process_records-Settled :
      (now : ℕ) (r : ExecutionRecord) (due : List ExecutionRecord) (q : Queue)
      → q.active_count < cfg.concurrency
      → All (λ y. y.id ≡ r.id → y ≡ r) due
      → Settled cfg execute bad now r q
      → Settled cfg execute bad now r (process_records cfg execute now due q).0
  unfolding process_records
  process_records-Settled now r [] q free own settled = settled
  process_records-Settled now r (y ∷ due) q free own (x, at, (named, more, rest)) =
      subst (Settled cfg execute bad now r)
        (sym (process_records-turn cfg execute bad now y due q free))
        (process_records-Settled now r due (turn cfg execute bad now y q)
          (turn_free cfg execute bad now y q free) own.1
          (elim (Bool-cases (str_eq y.id r.id)) [
            | inl same ↦
                subst (λ z. Settled cfg execute bad now r (turn cfg execute bad now z q))
                  (sym (own.0 ((eq_iff y.id r.id).0 same)))
                  (turn-Settled cfg execute bad now r q (x, at, (named, more, rest)))
            | inr differs ↦ (
              x,
              turn_ne cfg execute bad now y q r.id
                    (λ e. ground (arith, (eq_iff y.id r.id).1 e, differs))
                  ∙ at,
              (named, more, rest),
            )
          ]))

  -- A listed record fails in the pass.
  process_records-listed :
      (now : ℕ) (r : ExecutionRecord) (due : List ExecutionRecord) (q : Queue)
      → q.active_count < cfg.concurrency
      → All (λ y. y.id ≡ r.id → y ≡ r) due
      → any (λ y. str_eq y.id r.id) due ≡ true
      → get r.id q.store ≡ some r
      → (r.status ≡ queued) ⊎ (r.status ≡ failed)
      → Settled cfg execute bad now r (process_records cfg execute now due q).0
  process_records-listed now r [] q free own listed at due_now = ground (arith, listed)
  process_records-listed now r (y ∷ due) q free own listed at due_now =
      subst (Settled cfg execute bad now r)
        (sym (process_records-turn cfg execute bad now y due q free))
        (elim (Bool-cases (str_eq y.id r.id)) [
          | inl same ↦
              process_records-Settled now r due (turn cfg execute bad now y q)
                (turn_free cfg execute bad now y q free) own.1
                (subst (λ z. Settled cfg execute bad now r (turn cfg execute bad now z q))
                  (sym (own.0 ((eq_iff y.id r.id).0 same)))
                  (subst (Settled cfg execute bad now r)
                    (sym (turn_due cfg execute bad now r q at due_now))
                    (ran-Settled cfg execute bad now r r q refl)))
          | inr differs ↦
              process_records-listed now r due (turn cfg execute bad now y q)
                (turn_free cfg execute bad now y q free) own.1
                (sym (ap (λ (b : Bool). b || any (λ z. str_eq z.id r.id) due) differs) ∙ listed)
                (turn_ne cfg execute bad now y q r.id
                    (λ e. ground (arith, (eq_iff y.id r.id).1 e, differs))
                  ∙ at)
                due_now
        ])

  -- A due record fails in a pass that lists every due record.
  process_due-Settled :
      (now : ℕ) (r : ExecutionRecord) (q : Queue)
      → IsWellFormed q.store
      → q.active_count < cfg.concurrency
      → length (filterb (is_due now) (values q.store)) ≤ 50
      → get r.id q.store ≡ some r
      → is_due now r ≡ true
      → Settled cfg execute bad now r (process_due cfg execute now q).0
  unfolding process_due
  process_due-Settled now r q wf free few at due_now =
      process_records-listed now r (list_due now 50 q.store) q free
        (All-map _ _
          (λ y stored same.
            ap (λ o. get_or_else o y) (sym stored ∙ ap (λ k. get k q.store) same ∙ at))
          (list_due now 50 q.store) (list_due-IsStored now 50 q.store wf))
        (list_due-listed now q.store r.id r wf few at due_now) at (is_due-status now r due_now)

  process_due_keeps :
      (now : ℕ) (q : Queue)
      → IsWellFormed q.store
      → q.active_count < cfg.concurrency
      → IsWellFormed (process_due cfg execute now q).0.store
        × ((process_due cfg execute now q).0.active_count < cfg.concurrency)
  unfolding process_due
  process_due_keeps now q wf free =
      let due = list_due now 50 q.store in
      (
        process_records-IsWellFormed now due q free wf,
        subst (λ n. n < cfg.concurrency) (sym (process_records-active now due q free)) free,
      )

  -- A pass leaves a dead letter alone.
  process_due-dead_letter :
      (now : ℕ) (r : ExecutionRecord) (q : Queue)
      → IsWellFormed q.store
      → q.active_count < cfg.concurrency
      → get r.id q.store ≡ some r
      → r.status ≡ dead_letter
      → get r.id (process_due cfg execute now q).0.store ≡ some r
  unfolding process_due
  process_due-dead_letter now r q wf free at dead =
      let due = list_due now 50 q.store in
      process_records-other now due q r.id free (
        All-map _ _
          (λ y (stored, listed) same. dead_letter-not_due now r dead (
            sym (
              ap (is_due now)
                (ap (λ o. get_or_else o y) (sym stored ∙ ap (λ k. get k q.store) same ∙ at)))
            ∙ listed))
          due
          (All-both _ _ due (list_due-IsStored now 50 q.store wf) (list_due-is_due now 50 q.store)))
      ∙ at

  passes_dead_letter :
      (times : List ℕ) (r : ExecutionRecord) (q : Queue)
      → IsWellFormed q.store
      → q.active_count < cfg.concurrency
      → get r.id q.store ≡ some r
      → r.status ≡ dead_letter
      → get r.id (passes cfg execute times q).store ≡ some r
  passes_dead_letter [] r q wf free at dead = at
  passes_dead_letter (t ∷ times) r q wf free at dead =
      let (kept, room) = process_due_keeps t q wf free in
      passes_dead_letter times r (process_due cfg execute t q).0 kept room
        (process_due-dead_letter t r q wf free at dead) dead

-- If every run fails, in whatever way, then passes of the worker, one after the other with nothing in
-- between, make a dead letter of a stored record that is due at the first of them: as many passes as
-- the retry limit leaves the record, and one at least. Its attempts are then at most the limit, or
-- one more than they were. The passes are at least the greatest delay of the retry policy apart, the
-- worker has room for a run, each pass finds at most the fifty due records that it lists, and the
-- store's keys are the ids of its records.
pub passes-dead_letter :
    (cfg : QueueConfig) (execute : ExecutionRecord → Executed) (t : ℕ) (times : List ℕ)
    (r : ExecutionRecord) (q : Queue)
    → ((x : ExecutionRecord) → IsFailure (execute x))
    → IsWellFormed q.store
    → q.active_count < cfg.concurrency
    → AreFew cfg execute (t ∷ times) q
    → IsSpaced cfg.retry_policy.max_delay_ms t times
    → get r.id q.store ≡ some r
    → is_due t r ≡ true
    → cfg.retry_policy.max_retries ≤ r.attempt + length (t ∷ times)
    → (x : ExecutionRecord) × (get r.id (passes cfg execute (t ∷ times) q).store ≡ some x)
      × (x.status ≡ dead_letter)
      × (x.attempt ≤ max (r.attempt + 1) cfg.retry_policy.max_retries)
passes-dead_letter cfg execute t [] r q bad wf free (few, _) spaced at due_now enough =
    let (x, got, (named, counted, outcome)) =
      process_due-Settled cfg execute bad t r q wf free few at due_now in
    (x, got, ground (arith, outcome, counted, enough), omega arith)
passes-dead_letter cfg execute t (t' ∷ times) r q bad wf free (few, more) (apart, spaced) at due_now
      enough =
    let q' = (process_due cfg execute t q).0 in
    let (x, got, (named, counted, outcome)) =
      process_due-Settled cfg execute bad t r q wf free few at due_now in
    let (kept, room) = process_due_keeps cfg execute bad t q wf free in
    let got' : get x.id q'.store ≡ some x = ap (λ k. get k q'.store) named ∙ got in
    elim outcome [
      | inr dead ↦ (
        x,
        ap (λ k. get k (passes cfg execute (t' ∷ times) q').store) (sym named)
            ∙ passes_dead_letter cfg execute bad (t' ∷ times) x q' kept room got' dead,
        dead,
        omega arith,
      )
      | inl (again, below, when) ↦
          let (y, got_y, dead, bound) =
            passes-dead_letter cfg execute t' times x q' bad kept room more spaced got'
              (retry-is_due cfg.retry_policy t t' x again when apart) (omega arith) in
          (
            y,
            ap (λ k. get k (passes cfg execute (t' ∷ times) q').store) (sym named) ∙ got_y,
            dead,
            omega arith,
          )
    ]
