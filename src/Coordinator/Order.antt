-- ===== src/Coordinator/Order.antt =====
-- The order of the tasks that have joined one queue of
-- apps/api/src/account-sequence-coordinator.ts, as an invariant, and what a change of one task's
-- status keeps of it.
use evergent.Base.{
  ℕ, String, Option, none, some, ◌≡◌, ◌≢◌, refl, sym, ap, subst, ◌∙◌, arith, ◌==◌, ◌<◌, ◌≤◌, inl,
  inr, ◌⊎◌, Bool-cases, get_or_else,
}
use evergent.Coordinator.{
  TaskStatus, waiting, settled, Task, Coordinator, set_status, put, AccountQueue, with_status,
}

-- The latest task of a queue, which is a task of the account.
abbrev pub IsLast : Coordinator → String → ℕ → ℕ → Type 0
IsLast s a queue i =
    ((t : Task) × (s.tasks i ≡ some t) × (t.queue ≡ queue) × (t.account ≡ a))
    × ((j : ℕ) (u : Task) → s.tasks j ≡ some u → u.queue ≡ queue → j ≤ i)

-- The tail of an account's queue is the latest task that has joined it.
abbrev pub HasTail : Coordinator → String → Option AccountQueue → Type 0
HasTail s a none = Unit {0}
HasTail s a (some q) = IsLast s a q.id q.tail

-- A task is chained to the latest earlier one of its queue.
abbrev pub IsChained : Coordinator → ℕ → Task → Option ℕ → Type 0
IsChained s j u none = (i : ℕ) (t : Task) → s.tasks i ≡ some t → t.queue ≡ u.queue → i < j → ⊥
IsChained s j u (some p) =
    (p < j)
    × ((b : Task) × (s.tasks p ≡ some b) × (b.queue ≡ u.queue))
    × ((i : ℕ) (t : Task) → s.tasks i ≡ some t → t.queue ≡ u.queue → i < j → i ≤ p)

pub record IsOrdered (s : Coordinator) : Type 0 where
  pub fresh : (i : ℕ) (t : Task) → s.tasks i ≡ some t → (i < s.next) × (t.queue < s.next)
  -- A queue is of one account.
  pub owned :
      (i j : ℕ) (t u : Task)
      → s.tasks i ≡ some t
      → s.tasks j ≡ some u
      → t.queue ≡ u.queue
      → t.account ≡ u.account
  pub tails : (a : String) → HasTail s a (s.accounts a)
  pub chained : (j : ℕ) (u : Task) → s.tasks j ≡ some u → IsChained s j u u.previous
  -- A task that has started comes after settled ones only.
  pub after_settled :
      (i j : ℕ) (t u : Task)
      → s.tasks i ≡ some t
      → s.tasks j ≡ some u
      → t.queue ≡ u.queue
      → i < j
      → u.status ≢ waiting
      → t.status ≡ settled

pub put_cases :
    (i j : ℕ) (x : Option Task) (f : ℕ → Option Task)
    → ((i ≡ j) × (put i x f j ≡ x)) ⊎ ((i ≢ j) × (put i x f j ≡ f j))
put_cases i j x f = elim (Bool-cases (i == j)) [
  | inl same ↦ inl (ground arith, rw same refl)
  | inr other ↦ inr ((λ e. ground arith), rw other refl)
]

-- The steps that change the status of one task.
module _ (s : Coordinator) (i : ℕ) (t : Task) (st : TaskStatus) (at : s.tasks i ≡ some t) where
  -- The task before the change: the one that is changed, or the same.
  pub origin :
      (j : ℕ) (u : Task)
      → (set_status i t st s).tasks j ≡ some u
      → ((i ≡ j) × (u ≡ with_status st t)) ⊎ ((i ≢ j) × (s.tasks j ≡ some u))
  origin j u h = elim (put_cases i j (some (with_status st t)) s.tasks) [
    | inl (same, e) ↦ inl (same, ap (λ o. get_or_else o u) (sym h ∙ e))
    | inr (other, e) ↦ inr (other, sym e ∙ h)
  ]

  -- What every task keeps: there is one before the change, of the same queue, account and chain.
  abbrev Before : ℕ → Task → Type 0
  Before j u =
      (u0 : Task) × (s.tasks j ≡ some u0)
      × (u0.queue ≡ u.queue)
      × (u0.account ≡ u.account)
      × (u0.previous ≡ u.previous)

  before : (j : ℕ) (u : Task) → (set_status i t st s).tasks j ≡ some u → Before j u
  before j u h = elim (origin j u h) [
    | inl (same, e) ↦ (
      t,
      ap s.tasks (sym same) ∙ at,
      sym (ap (λ x. x.queue) e),
      sym (ap (λ x. x.account) e),
      sym (ap (λ x. x.previous) e),
    )
    | inr (other, e) ↦ (u, e, refl, refl, refl)
  ]

  -- A task is still there after the change.
  still :
      (j : ℕ) (u0 : Task)
      → s.tasks j ≡ some u0
      → (u : Task) × ((set_status i t st s).tasks j ≡ some u)
        × (u.queue ≡ u0.queue)
        × (u.account ≡ u0.account)
  still j u0 h = elim (put_cases i j (some (with_status st t)) s.tasks) [
    | inl (same, e) ↦
        let t_is : t ≡ u0 = ap (λ o. get_or_else o t) (sym at ∙ ap s.tasks same ∙ h) in
        (with_status st t, e, ap (λ x. x.queue) t_is, ap (λ x. x.account) t_is)
    | inr (other, e) ↦ (u0, e ∙ h, refl, refl)
  ]

  HasTail-kept :
      (a : String) (o : Option AccountQueue) → HasTail s a o → HasTail (set_status i t st s) a o
  HasTail-kept a none h = tt
  HasTail-kept a (some q) ((b, there, joined_it, own), last) =
      let (b', there', queue, account) = still q.tail b there in
      (
        (b', there', queue ∙ joined_it, account ∙ own),
        (λ j u e same.
            let (u0, e0, queue0, account0, previous) = before j u e in
            last j u0 e0 (queue0 ∙ same)),
      )

  IsChained-kept :
      (j : ℕ) (u0 u : Task) (p : Option ℕ)
      → u0.queue ≡ u.queue
      → IsChained s j u0 p
      → IsChained (set_status i t st s) j u p
  IsChained-kept j u0 u none own h = λ k x e same lt.
      let (x0, e0, queue, account, previous) = before k x e in h k x0 e0 (queue ∙ same ∙ sym own) lt
  IsChained-kept j u0 u (some p) own (lt, (b, there, queue), latest) =
      let (b', there', queue', account') = still p b there in
      (
        lt,
        (b', there', queue' ∙ queue ∙ own),
        (λ k x e same lt'.
            let (x0, e0, queue0, account0, previous) = before k x e in
            latest k x0 e0 (queue0 ∙ same ∙ sym own) lt'),
      )

  fresh-kept :
      IsOrdered s
      → (j : ℕ) (u : Task) → (set_status i t st s).tasks j ≡ some u
      → (j < s.next) × (u.queue < s.next)
  fresh-kept h j u e =
      let (u0, e0, queue, account, previous) = before j u e in
      let (position, named) = h.fresh j u0 e0 in (position, subst (λ n. n < s.next) queue named)

  -- The invariant is kept if the order of the starts is.
  pub set_status-IsOrdered :
      IsOrdered s
      → ((j k : ℕ) (u x : Task)
          → (set_status i t st s).tasks j ≡ some u
          → (set_status i t st s).tasks k ≡ some x
          → u.queue ≡ x.queue
          → j < k
          → x.status ≢ waiting
          → u.status ≡ settled)
      → IsOrdered (set_status i t st s)
  set_status-IsOrdered h order = record {
    fresh = fresh-kept h;
    owned = λ j k u x e f same.
        let (u0, e0, queue, account, previous) = before j u e in
        let (x0, f0, queue', account', previous') = before k x f in
        sym account ∙ h.owned j k u0 x0 e0 f0 (queue ∙ same ∙ sym queue') ∙ account';
    tails = λ a. HasTail-kept a (s.accounts a) (h.tails a);
    chained = λ j u e.
        let (u0, e0, queue, account, previous) = before j u e in
        subst (IsChained (set_status i t st s) j u) previous
          (IsChained-kept j u0 u u0.previous queue (h.chained j u0 e0));
    after_settled = order;
  }
