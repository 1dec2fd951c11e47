-- ===== src/Coordinator/Exclusion.antt =====
-- Each queue of apps/api/src/account-sequence-coordinator.ts keeps the tasks that have joined it apart,
-- in the order of the calls, whatever queues the clean-up forgets.
use evergent.Base.{
  Bool, true, String, str_eq, if_elim, if◌then◌else◌, ℕ, Option, none, some, false, ◌≡◌, ◌≢◌, sym,
  ap, ◌∙◌, arith, ◌==◌, ◌<◌, ◌≤◌, inl, inr, Bool-cases, get_or_else, ltb,
}
use evergent.Coordinator.{
  initial, clean_up, is_current, put_account, AccountQueue, TaskStatus, waiting, running, settled,
  Task, Coordinator, set_status, IsReady, IsReadyAfter,
}
use evergent.Coordinator.Steps.{
  Step, call, start, settle, Reach, begin_here, and_step, and_clean_up,
}
use evergent.Coordinator.Order.{HasTail, IsChained, IsOrdered, origin, set_status-IsOrdered}
use evergent.Coordinator.Joining.{call-IsOrdered}

waiting-settled : (a : TaskStatus) → a ≡ waiting → a ≢ settled
waiting-settled waiting h k = cc
waiting-settled running h k = cc
waiting-settled settled h k = cc

settled-waiting : (a : TaskStatus) → a ≡ settled → a ≢ waiting
settled-waiting waiting h k = cc
settled-waiting running h k = cc
settled-waiting settled h k = cc

running-waiting : (a : TaskStatus) → a ≡ running → a ≢ waiting
running-waiting waiting h k = cc
running-waiting running h k = cc
running-waiting settled h k = cc

-- What comes before a task that is ready has settled.
ready-settled :
    (s : Coordinator) (i : ℕ) (t : Task) (p : Option ℕ)
    → IsOrdered s
    → IsChained s i t p
    → IsReadyAfter s p
    → (j : ℕ) (u : Task) → s.tasks j ≡ some u
    → u.queue ≡ t.queue
    → j < i
    → u.status ≡ settled
ready-settled s i t none h chain ready j u e same lt = absurd (chain j u e same lt)
ready-settled s i t (some p) h (before, (b, there, own), latest) (b', there', done) j u e same lt =
    elim (Bool-cases (j == p)) [
      | inl here ↦
          let j_is : j ≡ p = ground arith in
          let u_is : u ≡ b' = ap (λ o. get_or_else o u) (sym e ∙ ap s.tasks j_is ∙ there') in
          ap (λ y. y.status) u_is ∙ done
      | inr other ↦
          let bound : j ≤ p = latest j u e same lt in
          let earlier : j < p = ground arith in
          let b_is : b ≡ b' = ap (λ o. get_or_else o b) (sym there ∙ there') in
          h.after_settled j p u b' e there' (same ∙ sym own ∙ ap (λ y. y.queue) b_is) earlier
            (settled-waiting b'.status done)
    ]

start-IsOrdered :
    (i : ℕ) (t : Task) (s : Coordinator) (at : s.tasks i ≡ some t)
    → t.status ≡ waiting
    → IsReady s t
    → IsOrdered s
    → IsOrdered (set_status i t running s)
start-IsOrdered i t s at waits ready h =
    set_status-IsOrdered s i t running at h (λ j k u x e f same lt started.
      elim (origin s i t running at k x f) [
        | inl (i_is, x_is) ↦ elim (origin s i t running at j u e) [
          | inl (i_is', u_is) ↦ absurd (omega arith)
          | inr (other, e0) ↦
              ready-settled s i t t.previous h (h.chained i t at) ready j u e0
                (same ∙ ap (λ y. y.queue) x_is) (omega arith)
        ]
        | inr (other, f0) ↦ elim (origin s i t running at j u e) [
          | inl (i_is, u_is) ↦ absurd (
              waiting-settled t.status waits (
                h.after_settled i k t x at f0 (sym (ap (λ y. y.queue) u_is) ∙ same) (omega arith)
                  started))
          | inr (other', e0) ↦ h.after_settled j k u x e0 f0 same lt started
        ]
      ])

settle-IsOrdered :
    (i : ℕ) (t : Task) (s : Coordinator) (at : s.tasks i ≡ some t)
    → t.status ≡ running
    → IsOrdered s
    → IsOrdered (set_status i t settled s)
settle-IsOrdered i t s at runs h =
    set_status-IsOrdered s i t settled at h (λ j k u x e f same lt started.
      elim (origin s i t settled at j u e) [
        | inl (i_is, u_is) ↦ ap (λ y. y.status) u_is
        | inr (other, e0) ↦ elim (origin s i t settled at k x f) [
          | inl (i_is, x_is) ↦
              h.after_settled j i u t e0 at (same ∙ ap (λ y. y.queue) x_is) (omega arith)
                (running-waiting t.status runs)
          | inr (other', f0) ↦ h.after_settled j k u x e0 f0 same lt started
        ]
      ])

step-IsOrdered : (s s' : Coordinator) → Step s s' → IsOrdered s → IsOrdered s'
step-IsOrdered _ _ (call a s) h = call-IsOrdered a s h
step-IsOrdered _ _ (start i t s at waits ready) h = start-IsOrdered i t s at waits ready h
step-IsOrdered _ _ (settle i t s at runs) h = settle-IsOrdered i t s at runs h

-- The clean-up forgets a queue, and changes no task.
HasTail-cleaned :
    (b : Bool) (a : String) (s : Coordinator) (o : Option AccountQueue)
    → HasTail s a o
    → HasTail s a (if b then none else o)
HasTail-cleaned true a s o h = tt
HasTail-cleaned false a s o h = h

forget-IsOrdered :
    (a : String) (s : Coordinator)
    → IsOrdered s
    → IsOrdered (record s { accounts = put_account a none s.accounts })
forget-IsOrdered a s h = record {
  fresh = h.fresh;
  owned = h.owned;
  tails = λ b. HasTail-cleaned (str_eq a b) b s (s.accounts b) (h.tails b);
  chained = h.chained;
  after_settled = h.after_settled;
}

clean_up-IsOrdered : (t : Task) (s : Coordinator) → IsOrdered s → IsOrdered (clean_up t s)
unfolding clean_up
clean_up-IsOrdered t s h =
    if_elim IsOrdered (is_current t.queue (s.accounts t.account)) _ _
      (λ current. forget-IsOrdered t.account s h) (λ gone. h)

Reach-IsOrdered : (s0 s : Coordinator) → IsOrdered s0 → Reach s0 s → IsOrdered s
Reach-IsOrdered s0 _ h begin_here = h
Reach-IsOrdered s0 _ h (and_step s s' reached step) =
    step-IsOrdered s s' step (Reach-IsOrdered s0 s h reached)
Reach-IsOrdered s0 _ h (and_clean_up i t s reached there done) =
    clean_up-IsOrdered t s (Reach-IsOrdered s0 s h reached)

initial-IsOrdered : IsOrdered initial
initial-IsOrdered = record {
  fresh = λ i t e. cc;
  owned = λ i j t u e f same. cc;
  tails = λ a. tt;
  chained = λ j u e. cc;
  after_settled = λ i j t u e f same lt started. cc;
}

equal_of : (i j : ℕ) → ltb i j ≡ false → ltb j i ≡ false → i ≡ j
equal_of i j h k = ground arith

settled-running : (a : TaskStatus) → a ≡ settled → a ≢ running
settled-running waiting h k = cc
settled-running running h k = cc
settled-running settled h k = cc

one_running :
    (s : Coordinator)
    → IsOrdered s
    → (i j : ℕ) (t u : Task) → s.tasks i ≡ some t
    → s.tasks j ≡ some u
    → t.queue ≡ u.queue
    → t.status ≡ running
    → u.status ≡ running
    → i ≡ j
one_running s h i j t u e f same runs runs' = elim (Bool-cases (ltb i j)) [
  | inl earlier ↦
      let lt : i < j = ground arith in
      let done = h.after_settled i j t u e f same lt (running-waiting u.status runs') in
      absurd (settled-running t.status done runs)
  | inr not_earlier ↦ elim (Bool-cases (ltb j i)) [
    | inl later ↦
        let lt : j < i = ground arith in
        let done = h.after_settled j i u t f e (sym same) lt (running-waiting t.status runs) in
        absurd (settled-running u.status done runs')
    | inr not_later ↦ equal_of i j not_earlier not_later
  ]
]

-- In every run of the coordinator, its clean-ups included, a task starts only when all earlier tasks
-- that have joined the same queue have settled, so that two of them never run at once; and all tasks
-- of a queue are of one account.
pub Reach-excludes :
    (s : Coordinator)
    → Reach initial s
    → (i j : ℕ) (t u : Task) → s.tasks i ≡ some t
    → s.tasks j ≡ some u
    → t.queue ≡ u.queue
    → (t.account ≡ u.account)
      × (i < j → u.status ≢ waiting → t.status ≡ settled)
      × (t.status ≡ running → u.status ≡ running → i ≡ j)
Reach-excludes s reached i j t u e f same =
    let h = Reach-IsOrdered initial s initial-IsOrdered reached in
    (
      h.owned i j t u e f same,
      (λ lt started. h.after_settled i j t u e f same lt started),
      (λ runs runs'. one_running s h i j t u e f same runs runs'),
    )
