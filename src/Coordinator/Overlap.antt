-- ===== src/Coordinator/Overlap.antt =====
-- The clean-up of apps/api/src/account-sequence-coordinator.ts forgets a queue whose later tasks have
-- not settled, and a new call then does not wait for them.
use evergent.Base.{
  Option, subst, ℕ, suc, String, none, some, ◌≡◌, ◌≢◌, refl, ap, ◌∙◌, arith, true, if◌then◌else◌,
}
use text.Mathlib.TextPositions.{eq_refl}
use evergent.Coordinator.{
  TaskStatus, waiting, running, settled, Task, Coordinator, run_exclusive, set_status, clean_up,
  put, put_account, is_current, AccountQueue,
}
use evergent.Coordinator.Steps.{call, start, settle, Reach, begin_here, and_step, and_clean_up}

-- Two tasks of one account run at the same time.
abbrev pub Overlaps : String → Coordinator → Type 0
Overlaps a s =
    (i : ℕ) × (j : ℕ) × (t : Task) × (u : Task) × (i ≢ j)
    × (s.tasks i ≡ some t)
    × (s.tasks j ≡ some u)
    × (t.account ≡ a)
    × (u.account ≡ a)
    × (t.status ≡ running)
    × (u.status ≡ running)

abbrev task : String → ℕ → Option ℕ → TaskStatus → Task
task a queue previous status = record {
  account = a;
  queue = queue;
  previous = previous;
  status = status;
}

-- A call by an account without a queue.
run_exclusive_first :
    (a : String) (s : Coordinator)
    → s.accounts a ≡ none
    → run_exclusive a s ≡ record {
      accounts = put_account a (some (record { id = s.next; tail = s.next })) s.accounts;
      tasks = put s.next (some (task a s.next none waiting)) s.tasks;
      next = suc s.next;
    }
unfolding run_exclusive
run_exclusive_first a s h = rw h refl

-- A call by an account with a queue.
run_exclusive_next :
    (a : String) (s : Coordinator) (q : AccountQueue)
    → s.accounts a ≡ some q
    → run_exclusive a s ≡ record {
      accounts = put_account a (some (record { id = q.id; tail = s.next })) s.accounts;
      tasks = put s.next (some (task a q.id (some q.tail) waiting)) s.tasks;
      next = suc s.next;
    }
unfolding run_exclusive
run_exclusive_next a s q h = rw h refl

clean_up_current :
    (t : Task) (s : Coordinator) (q : AccountQueue)
    → s.accounts t.account ≡ some q
    → q.id ≡ t.queue
    → clean_up t s ≡ record s { accounts = put_account t.account none s.accounts }
unfolding clean_up
clean_up_current t s q h same =
    let current : is_current t.queue (s.accounts t.account) ≡ true =
      ap (is_current t.queue) h ∙ ground arith in
    rw current refl

put_same {ℓ} : {A : Type ℓ} (i : ℕ) (x : A) (f : ℕ → A) → put i x f i ≡ x
put_same i x f = ground arith

put_other {ℓ} : {A : Type ℓ} (i j : ℕ) (x : A) (f : ℕ → A) → i ≢ j → put i x f j ≡ f j
put_other i j x f h = ground arith

put_account_same :
    (a : String) (x : Option AccountQueue) (f : String → Option AccountQueue)
    → put_account a x f a ≡ x
put_account_same a x f = ap (λ b. if b then x else f a) (eq_refl a)

module _ (a : String) (s : Coordinator) where
  abbrev queue_from : ℕ → ℕ → AccountQueue
  queue_from id tail = record { id = id; tail = tail }

  -- Two calls by one account, and the run of the first.
  abbrev called : Coordinator
  called = record {
    accounts = put_account a (some (queue_from s.next s.next)) s.accounts;
    tasks = put s.next (some (task a s.next none waiting)) s.tasks;
    next = suc s.next;
  }

  abbrev called_twice : Coordinator
  called_twice = record {
    accounts = put_account a (some (queue_from s.next (suc s.next))) called.accounts;
    tasks = put (suc s.next) (some (task a s.next (some s.next) waiting)) called.tasks;
    next = suc (suc s.next);
  }

  abbrev first_running : Coordinator
  first_running = set_status s.next (task a s.next none waiting) running called_twice

  abbrev first_settled : Coordinator
  first_settled = set_status s.next (task a s.next none running) settled first_running

  -- The clean-up after the first, the start of the second, a third call and its start.
  abbrev cleaned : Coordinator
  cleaned = record first_settled { accounts = put_account a none first_settled.accounts }

  abbrev second_running : Coordinator
  second_running = set_status (suc s.next) (task a s.next (some s.next) waiting) running cleaned

  abbrev called_again : Coordinator
  called_again = record {
    accounts =
        put_account a (some (queue_from (suc (suc s.next)) (suc (suc s.next))))
          second_running.accounts;
    tasks =
        put (suc (suc s.next)) (some (task a (suc (suc s.next)) none waiting)) second_running.tasks;
    next = suc (suc (suc s.next));
  }

  abbrev overlapping : Coordinator
  overlapping =
      set_status (suc (suc s.next)) (task a (suc (suc s.next)) none waiting) running called_again

  module _ (untracked : s.accounts a ≡ none) where
    reach-called : Reach s called
    reach-called =
        subst (Reach s) (run_exclusive_first a s untracked) (and_step s _ begin_here (call a s))

    reach-called_twice : Reach s called_twice
    reach-called_twice =
        subst (Reach s)
          (run_exclusive_next a called (queue_from s.next s.next) (put_account_same a _ s.accounts))
          (and_step called _ reach-called (call a called))

    reach-first_settled : Reach s first_settled
    reach-first_settled =
        let waits : called_twice.tasks s.next ≡ some (task a s.next none waiting) =
          put_other (suc s.next) s.next _ called.tasks (λ e. absurd (omega arith))
          ∙ put_same s.next _ s.tasks in
        let runs : first_running.tasks s.next ≡ some (task a s.next none running) =
          put_same s.next _ called_twice.tasks in
        and_step first_running _
          (and_step called_twice _ reach-called_twice
            (start s.next (task a s.next none waiting) called_twice waits refl tt))
          (settle s.next (task a s.next none running) first_running runs refl)

    reach-cleaned : Reach s cleaned
    reach-cleaned =
        let done : first_settled.tasks s.next ≡ some (task a s.next none settled) =
          put_same s.next _ first_running.tasks in
        subst (Reach s)
          (clean_up_current (task a s.next none settled) first_settled
            (queue_from s.next (suc s.next)) (put_account_same a _ called.accounts) refl)
          (and_clean_up s.next (task a s.next none settled) first_settled reach-first_settled done
            refl)

    second_waits : cleaned.tasks (suc s.next) ≡ some (task a s.next (some s.next) waiting)
    second_waits =
        put_other s.next (suc s.next) _ first_running.tasks (λ e. absurd (omega arith))
        ∙ put_other s.next (suc s.next) _ called_twice.tasks (λ e. absurd (omega arith))
        ∙ put_same (suc s.next) _ called.tasks

    reach-second_running : Reach s second_running
    reach-second_running =
        let done : cleaned.tasks s.next ≡ some (task a s.next none settled) =
          put_same s.next _ first_running.tasks in
        and_step cleaned _ reach-cleaned (
          start (suc s.next) (task a s.next (some s.next) waiting) cleaned second_waits refl
            (task a s.next none settled, done, refl))

    reach-overlapping : Reach s overlapping
    reach-overlapping =
        let again : Reach s called_again =
          subst (Reach s)
            (run_exclusive_first a second_running (put_account_same a none first_settled.accounts))
            (and_step second_running _ reach-second_running (call a second_running)) in
        and_step called_again _ again (
          start (suc (suc s.next)) (task a (suc (suc s.next)) none waiting) called_again
            (put_same (suc (suc s.next)) _ second_running.tasks) refl tt)

overlapping-Overlaps : (a : String) (s : Coordinator) → Overlaps a (overlapping a s)
overlapping-Overlaps a s = (
  suc s.next,
  suc (suc s.next),
  task a s.next (some s.next) running,
  task a (suc (suc s.next)) none running,
  (λ e. absurd (omega arith)),
  put_other (suc (suc s.next)) (suc s.next) _ (called_again a s).tasks (λ e. absurd (omega arith))
      ∙ put_other (suc (suc s.next)) (suc s.next) _ (second_running a s).tasks
          (λ e. absurd (omega arith))
      ∙ put_same (suc s.next) _ (cleaned a s).tasks,
  put_same (suc (suc s.next)) _ (called_again a s).tasks,
  refl,
  refl,
  refl,
  refl,
)

-- From every state in which an account has no queue, the coordinator can go on, by three calls of that
-- account and the steps that follow them, to a state in which two tasks of the account run at once:
-- the clean-up after the first task forgets the queue, so that the third call does not wait for the
-- second.
pub clean_up-Overlaps :
    (a : String) (s : Coordinator)
    → s.accounts a ≡ none
    → (s' : Coordinator) × Reach s s' × Overlaps a s'
clean_up-Overlaps a s untracked =
    (overlapping a s, reach-overlapping a s untracked, overlapping-Overlaps a s)
