-- ===== src/Coordinator/Joining.antt =====
-- A call of `runExclusive` of apps/api/src/account-sequence-coordinator.ts keeps the tasks in order.
use evergent.Base.{
  ℕ, suc, String, Option, none, some, true, false, ◌≡◌, ◌≢◌, refl, sym, ap, subst, ◌∙◌, arith,
  str_eq, eq_iff, if◌then◌else◌, ◌<◌, ◌≤◌, inl, inr, ◌⊎◌, Bool-cases, get_or_else,
}
use evergent.Coordinator.{
  waiting, Task, Coordinator, run_exclusive, put, put_account, joined, tail_before, AccountQueue,
}
use evergent.Coordinator.Order.{HasTail, IsChained, IsOrdered, put_cases}

-- The task that a call adds.
abbrev added : String → Coordinator → Task
added a s = record {
  account = a;
  queue = (joined s.next (s.accounts a)).id;
  previous = tail_before (s.accounts a);
  status = waiting;
}

module _ (a : String) (s : Coordinator) (h : IsOrdered s) where
  abbrev after : Coordinator
  after = record {
    accounts = put_account a (some (joined s.next (s.accounts a))) s.accounts;
    tasks = put s.next (some (added a s)) s.tasks;
    next = suc s.next;
  }

  call-origin :
      (j : ℕ) (u : Task)
      → after.tasks j ≡ some u
      → ((j ≡ s.next) × (u ≡ added a s)) ⊎ ((j < s.next) × (s.tasks j ≡ some u))
  call-origin j u e = elim (put_cases s.next j (some (added a s)) s.tasks) [
    | inl (same, there) ↦ inl (sym same, ap (λ o. get_or_else o u) (sym e ∙ there))
    | inr (other, there) ↦ inr ((h.fresh j u (sym there ∙ e)).0, sym there ∙ e)
  ]

  call-still : (j : ℕ) (u : Task) → s.tasks j ≡ some u → after.tasks j ≡ some u
  call-still j u e = elim (put_cases s.next j (some (added a s)) s.tasks) [
    | inl (same, there) ↦ let lt : j < s.next = (h.fresh j u e).0 in absurd (omega arith)
    | inr (other, there) ↦ there ∙ e
  ]

  added_there : after.tasks s.next ≡ some (added a s)
  added_there = elim (put_cases s.next s.next (some (added a s)) s.tasks) [
    | inl (same, there) ↦ there
    | inr (other, there) ↦ absurd (other refl)
  ]

  added_last : (j : ℕ) (u : Task) → after.tasks j ≡ some u → j ≤ s.next
  added_last j u e = elim (call-origin j u e) [
    | inl (j_is, u_is) ↦ omega arith
    | inr (lt, e0) ↦ omega arith
  ]

  -- The id of the queue that the call joins: a new one, or that of the tail.
  queue_cases :
      (o : Option AccountQueue)
      → HasTail s a o
      → ((joined s.next o).id ≡ s.next)
        ⊎ ((i : ℕ) × (t : Task) × (s.tasks i ≡ some t)
            × (t.queue ≡ (joined s.next o).id)
            × (t.account ≡ a))
  queue_cases none k = inl refl
  queue_cases (some q) ((t, there, joined_it, own), last) = inr (q.tail, t, there, joined_it, own)

  -- The other tasks of the call's queue are of its account.
  call-owned : (i : ℕ) (t : Task) → s.tasks i ≡ some t → t.queue ≡ (added a s).queue → t.account ≡ a
  call-owned i t e same = elim (queue_cases (s.accounts a) (h.tails a)) [
    | inl new ↦
        let lt : t.queue < s.next = (h.fresh i t e).1 in
        let is : t.queue ≡ s.next = same ∙ new in absurd (omega arith)
    | inr (j, u, f, joined_it, own) ↦ h.owned i j t u e f (same ∙ sym joined_it) ∙ own
  ]

  HasTail-other : (b : String) (o : Option AccountQueue) → a ≢ b → HasTail s b o → HasTail after b o
  HasTail-other b none differs k = tt
  HasTail-other b (some q) differs ((t, there, joined_it, own), last) = (
    (t, call-still q.tail t there, joined_it, own),
    (λ j u e same. elim (call-origin j u e) [
      | inl (j_is, u_is) ↦ absurd (
          differs
            (sym (call-owned q.tail t there (joined_it ∙ sym same ∙ ap (λ y. y.queue) u_is)) ∙ own))
      | inr (lt, e0) ↦ last j u e0 same
    ]),
  )

  HasTail-joined :
      (o : Option AccountQueue) → o ≡ s.accounts a → HasTail after a (some (joined s.next o))
  HasTail-joined none is = (
    (added a s, added_there, sym (ap (λ x. (joined s.next x).id) is), refl),
    (λ j u e same. added_last j u e),
  )
  HasTail-joined (some q) is = (
    (added a s, added_there, sym (ap (λ x. (joined s.next x).id) is), refl),
    (λ j u e same. added_last j u e),
  )

  IsChained-old :
      (j : ℕ) (u : Task) (p : Option ℕ) → j < s.next → IsChained s j u p → IsChained after j u p
  IsChained-old j u none old k = λ i t e same lt. elim (call-origin i t e) [
    | inl (i_is, t_is) ↦ absurd (omega arith)
    | inr (lt', e0) ↦ k i t e0 same lt
  ]
  IsChained-old j u (some p) old (lt, (b, there, own), latest) = (
    lt,
    (b, call-still p b there, own),
    (λ i t e same lt'. elim (call-origin i t e) [
      | inl (i_is, t_is) ↦ absurd (omega arith)
      | inr (older, e0) ↦ latest i t e0 same lt'
    ]),
  )

  IsChained-added :
      (o : Option AccountQueue)
      → o ≡ s.accounts a
      → HasTail s a o
      → IsChained after s.next (added a s) (tail_before o)
  IsChained-added none is k = λ i t e same lt. elim (call-origin i t e) [
    | inl (i_is, t_is) ↦ absurd (omega arith)
    | inr (older, e0) ↦
        let named : t.queue < s.next = (h.fresh i t e0).1 in
        let new : t.queue ≡ s.next = same ∙ sym (ap (λ x. (joined s.next x).id) is) in
        absurd (omega arith)
  ]
  IsChained-added (some q) is ((t, there, joined_it, own), last) =
      let queue : q.id ≡ (added a s).queue = ap (λ x. (joined s.next x).id) is in
      (
        (h.fresh q.tail t there).0,
        (t, call-still q.tail t there, joined_it ∙ queue),
        (λ i u e same lt. elim (call-origin i u e) [
          | inl (i_is, u_is) ↦ absurd (omega arith)
          | inr (older, e0) ↦ last i u e0 (same ∙ sym queue)
        ]),
      )

  call-tails : (b : String) → HasTail after b (after.accounts b)
  call-tails b =
      let queue = some (joined s.next (s.accounts a)) in
      elim (Bool-cases (str_eq a b)) [
        | inl same ↦
            subst (HasTail after b) (sym (ap (λ c. if c then queue else s.accounts b) same)) (
              subst (λ x. HasTail after x queue) ((eq_iff a b).0 same)
                (HasTail-joined (s.accounts a) refl))
        | inr other ↦
            subst (HasTail after b) (sym (ap (λ c. if c then queue else s.accounts b) other)) (
              HasTail-other b (s.accounts b)
                (λ e. let no : false ≡ true = sym other ∙ (eq_iff a b).1 e in cc) (h.tails b))
      ]

  added_queue : (added a s).queue < suc s.next
  added_queue = elim (queue_cases (s.accounts a) (h.tails a)) [
    | inl new ↦ omega arith
    | inr (j, u, f, joined_it, own) ↦ let lt : u.queue < s.next = (h.fresh j u f).1 in omega arith
  ]

  call-fresh :
      (j : ℕ) (u : Task) → after.tasks j ≡ some u → (j < suc s.next) × (u.queue < suc s.next)
  call-fresh j u e = elim (call-origin j u e) [
    | inl (j_is, u_is) ↦ (omega arith, subst (λ x. x.queue < suc s.next) (sym u_is) added_queue)
    | inr (lt, e0) ↦ let named : u.queue < s.next = (h.fresh j u e0).1 in (omega arith, omega arith)
  ]

  call-owned_all :
      (i j : ℕ) (t u : Task)
      → after.tasks i ≡ some t
      → after.tasks j ≡ some u
      → t.queue ≡ u.queue
      → t.account ≡ u.account
  call-owned_all i j t u e f same = elim (call-origin i t e) [
    | inl (i_is, t_is) ↦ elim (call-origin j u f) [
      | inl (j_is, u_is) ↦ ap (λ y. y.account) (t_is ∙ sym u_is)
      | inr (lt, f0) ↦
          ap (λ y. y.account) t_is ∙ sym (call-owned j u f0 (sym same ∙ ap (λ y. y.queue) t_is))
    ]
    | inr (lt, e0) ↦ elim (call-origin j u f) [
      | inl (j_is, u_is) ↦
          call-owned i t e0 (same ∙ ap (λ y. y.queue) u_is) ∙ sym (ap (λ y. y.account) u_is)
      | inr (lt', f0) ↦ h.owned i j t u e0 f0 same
    ]
  ]

  pub call-IsOrdered : IsOrdered (run_exclusive a s)
  unfolding run_exclusive
  call-IsOrdered = record {
    fresh = call-fresh;
    owned = call-owned_all;
    tails = call-tails;
    chained = λ j u e. elim (call-origin j u e) [
      | inl (j_is, u_is) ↦
          subst (λ i. IsChained after i u u.previous) (sym j_is)
            (subst (λ x. IsChained after s.next x x.previous) (sym u_is)
              (IsChained-added (s.accounts a) refl (h.tails a)))
      | inr (lt, e0) ↦ IsChained-old j u u.previous lt (h.chained j u e0)
    ];
    after_settled = λ i j t u e f same lt started. elim (call-origin j u f) [
      | inl (j_is, u_is) ↦ absurd (started (ap (λ y. y.status) u_is))
      | inr (older, f0) ↦ elim (call-origin i t e) [
        | inl (i_is, t_is) ↦ absurd (omega arith)
        | inr (older', e0) ↦ h.after_settled i j t u e0 f0 same lt started
      ]
    ];
  }
