-- ===== src/Server/Approvals/Decisions.antt =====
-- Who decides on an approval, and that it is decided once.
use evergent.Base.{
  ℕ, true, Option, none, some, String, ◌≡◌, ◌≢◌, refl, sym, ap, subst, ◌∙◌, ◌⊎◌, inl, inr,
  Option-cases, if_elim, if◌then◌else◌, arith,
}
use evergent.Base.Floats.{Floats}
use evergent.Agents.{can_access_agent, can_access_approval}
use evergent.Agents.Access.{owner_of, can_access_agent_iff}
use evergent.Base.StringMap.{get, get-set_self}
use evergent.Approval.{
  ApprovalStatus, pending_approval, approved, rejected, expired, executing, submitted, confirmed,
  failed, ApprovalRecord, ApprovalStore, validate_approval_transition, update_approval,
}
use evergent.Pipeline.Approved.{is_expired}
use evergent.Server.Approvals.{
  Mode, deferred, queued_mode, direct, Decision, ApprovalReply, approval_patch, Desk, hand_over,
  approve_pending, reject_pending, if_valid, entered, has_access, approve_found, not_found,
  reject_found, handle_approve, handle_reject,
}

-- Only a pending approval may become approved or rejected.
approved_from :
    (s : ApprovalStatus) → validate_approval_transition s approved ≡ none → s ≡ pending_approval
unfolding validate_approval_transition
approved_from pending_approval h = refl
approved_from approved h = cc
approved_from rejected h = cc
approved_from expired h = cc
approved_from executing h = cc
approved_from submitted h = cc
approved_from confirmed h = cc
approved_from failed h = cc

rejected_from :
    (s : ApprovalStatus) → validate_approval_transition s rejected ≡ none → s ≡ pending_approval
unfolding validate_approval_transition
rejected_from pending_approval h = refl
rejected_from approved h = cc
rejected_from rejected h = cc
rejected_from expired h = cc
rejected_from executing h = cc
rejected_from submitted h = cc
rejected_from confirmed h = cc
rejected_from failed h = cc

module _ (F : Floats) where
  -- Two desks with the same stores and the same work; they may differ in the agents that the
  -- directory remembers.
  abbrev pub IsSame : Desk F → Desk F → Type 0
  IsSame d e =
      (e.approvals ≡ d.approvals)
      × (e.activities ≡ d.activities)
      × (e.executions ≡ d.executions)
      × (e.scheduled ≡ d.scheduled)

  -- The approval is pending, and the directory has its agent as one of the owner of the request.
  abbrev pub MayDecide : Decision → Desk F → ApprovalRecord → Type 0
  MayDecide c d a =
      (get c.approval_id d.approvals ≡ some a)
      × (a.status ≡ pending_approval)
      × ((o : String) × (c.owner_id ≡ some o) × (owner_of a.agent_id d.directory ≡ some o))

  has_access-owner :
      (c : Decision) (d : Desk F) (a : ApprovalRecord)
      → get c.approval_id d.approvals ≡ some a
      → has_access F c d ≡ true
      → (o : String) × (c.owner_id ≡ some o) × (owner_of a.agent_id d.directory ≡ some o)
  unfolding can_access_approval
  has_access-owner c d a at may =
      let same : can_access_approval c.owner_id c.approval_id d.approvals d.directory
          ≡ can_access_agent c.owner_id a.agent_id d.directory =
        rw (at, can_access_approval) refl in
      (can_access_agent_iff c.owner_id a.agent_id d.directory).0 (sym (ap (λ p. p.1) same) ∙ may)

  -- Nothing was decided.
  abbrev IsRefusal : Desk F → Desk F × ApprovalReply → Type 0
  IsRefusal d r = IsSame d r.0 × (r.1.code ≢ 200)

  if_valid-cases :
      (o : Option String) (verb : String) (a : ApprovalRecord) (done : Desk F × ApprovalReply)
      (c : Decision) (d : Desk F)
      → ((o ≡ none) × (if_valid F o verb a done (entered F c d) ≡ done))
        ⊎ IsRefusal d (if_valid F o verb a done (entered F c d))
  if_valid-cases none verb a done c d = inl (refl, refl)
  if_valid-cases (some x) verb a done c d = inr ((refl, refl, refl, refl), (λ e. omega arith))

  -- What a handler does with what it finds, where the check of the transition lets only pending
  -- approvals pass.
  found-cases :
      (c : Decision) (d : Desk F) (a : ApprovalRecord) (o : Option String) (verb : String)
      (done : Desk F × ApprovalReply)
      → (o ≡ none → a.status ≡ pending_approval)
      → let r =
          if has_access F c d
          then if_valid F o verb a done (entered F c d)
          else (entered F c d, not_found) in
        IsRefusal d r ⊎ ((a.status ≡ pending_approval) × (has_access F c d ≡ true) × (r ≡ done))
  found-cases c d a o verb done only =
      if_elim
        (λ (r : Desk F × ApprovalReply).
          IsRefusal d r ⊎ ((a.status ≡ pending_approval) × (has_access F c d ≡ true) × (r ≡ done)))
        (has_access F c d) _ _
        (λ may. elim (if_valid-cases o verb a done c d) [
          | inl (valid, eq) ↦ inr (only valid, may, eq)
          | inr refusal ↦ inl refusal
        ])
        (λ other. inl ((refl, refl, refl, refl), (λ e. omega arith)))

  approve-cases :
      (c : Decision) (d : Desk F)
      → IsRefusal d (handle_approve F c d)
        ⊎ ((a : ApprovalRecord) × MayDecide c d a
            × (handle_approve F c d ≡ approve_pending F c a (entered F c d)))
  unfolding handle_approve
  approve-cases c d = elim (Option-cases (get c.approval_id d.approvals)) [
    | inl gone ↦ inl (
        subst (IsRefusal d) (sym (ap (λ o. approve_found F o c d) gone))
          ((refl, refl, refl, refl), (λ e. omega arith)))
    | inr (a, at) ↦
        let step = ap (λ o. approve_found F o c d) at in
        elim (found-cases c d a (validate_approval_transition a.status approved) "approve"
          (approve_pending F c a (entered F c d)) (approved_from a.status)) [
            | inl refusal ↦ inl (subst (IsRefusal d) (sym step) refusal)
            | inr (pending, may, eq) ↦
                inr (a, (at, pending, has_access-owner c d a at may), step ∙ eq)
          ]
  ]

  reject-cases :
      (c : Decision) (d : Desk F)
      → IsRefusal d (handle_reject F c d)
        ⊎ ((a : ApprovalRecord) × MayDecide c d a
            × (handle_reject F c d ≡ reject_pending F c a (entered F c d)))
  unfolding handle_reject
  reject-cases c d = elim (Option-cases (get c.approval_id d.approvals)) [
    | inl gone ↦ inl (
        subst (IsRefusal d) (sym (ap (λ o. reject_found F o c d) gone))
          ((refl, refl, refl, refl), (λ e. omega arith)))
    | inr (a, at) ↦
        let step = ap (λ o. reject_found F o c d) at in
        elim (found-cases c d a (validate_approval_transition a.status rejected) "reject"
          (reject_pending F c a (entered F c d)) (rejected_from a.status)) [
            | inl refusal ↦ inl (subst (IsRefusal d) (sym step) refusal)
            | inr (pending, may, eq) ↦
                inr (a, (at, pending, has_access-owner c d a at may), step ∙ eq)
          ]
  ]

  -- Approving or rejecting changes a store, or hands an execution over, only where the approval is
  -- pending, the request is authenticated, and the directory has the approval's agent as one of the
  -- request's owner.
  pub decision-cases :
      (c : Decision) (d : Desk F)
      → (IsSame d (handle_approve F c d).0 ⊎ ((a : ApprovalRecord) × MayDecide c d a))
        × (IsSame d (handle_reject F c d).0 ⊎ ((a : ApprovalRecord) × MayDecide c d a))
  decision-cases c d = (
    elim (approve-cases c d) [ inl (same, _) ↦ inl same | inr (a, may, _) ↦ inr (a, may) ],
    elim (reject-cases c d) [ inl (same, _) ↦ inl same | inr (a, may, _) ↦ inr (a, may) ],
  )

  -- The approval is stored with a status other than pending.
  abbrev pub IsDecided : String → Desk F → Type 0
  IsDecided id d =
      (a : ApprovalRecord) × (get id d.approvals ≡ some a) × (a.status ≢ pending_approval)

  not_decided :
      (c : Decision) (d : Desk F) (a : ApprovalRecord)
      → IsDecided c.approval_id d
      → MayDecide c d a
      → ⊥
  not_decided c d a (b, at, other) (at', pending, _) =
      let same : b ≡ a = cc in other (ap (λ x. x.status) same ∙ pending)

  decided-kept :
      (c : Decision) (d : Desk F)
      → IsDecided c.approval_id d
      → IsSame d (handle_approve F c d).0 × IsSame d (handle_reject F c d).0
  decided-kept c d h =
      let (approving, rejecting) = decision-cases c d in
      (
        elim approving [ inl same ↦ same | inr (a, may) ↦ absurd (not_decided c d a h may) ],
        elim rejecting [ inl same ↦ same | inr (a, may) ↦ absurd (not_decided c d a h may) ],
      )

  get-update_approval :
      (id : String) (patch : ApprovalRecord → ApprovalRecord) (now : ℕ) (s : ApprovalStore)
      (a : ApprovalRecord)
      → get id s ≡ some a
      → get id (update_approval id patch now s).0 ≡ some (record (patch a) { updated_at = now })
  unfolding update_approval
  get-update_approval id patch now s a at = rw (at, update_approval) (get-set_self id _ s)

  hand_over-approvals :
      (mode : Mode) (c : Decision) (a : ApprovalRecord) (d : Desk F)
      → (hand_over F mode c a d).approvals ≡ d.approvals
  hand_over-approvals deferred c a d = refl
  hand_over-approvals queued_mode c a d = refl
  hand_over-approvals direct c a d = refl

  approve_pending-IsDecided :
      (c : Decision) (a : ApprovalRecord) (d : Desk F)
      → get c.approval_id d.approvals ≡ some a
      → (approve_pending F c a d).1.code ≡ 200
      → IsDecided c.approval_id (approve_pending F c a d).0
  unfolding approve_pending
  approve_pending-IsDecided c a d at =
      if_elim (λ (r : Desk F × ApprovalReply). r.1.code ≡ 200 → IsDecided c.approval_id r.0)
        (is_expired a.expires_at c.now) _ _ (λ late e. absurd (omega (arith, e)))
        (λ timely e.
          let stored =
            get-update_approval c.approval_id (approval_patch c.now c.approver) c.now d.approvals a
              at in
          (_, ap (get c.approval_id) (hand_over-approvals c.mode c a _) ∙ stored, (λ h. cc)))

  -- An approval that was accepted is decided: whatever is asked for it later, by whom and when,
  -- `handleApprove` and `handleReject` change no store and hand over no second execution.
  pub approved_once :
      (c later : Decision) (d : Desk F)
      → (handle_approve F c d).1.code ≡ 200
      → later.approval_id ≡ c.approval_id
      → IsSame (handle_approve F c d).0 (handle_approve F later (handle_approve F c d).0).0
        × IsSame (handle_approve F c d).0 (handle_reject F later (handle_approve F c d).0).0
  approved_once c later d accepted same_id = elim (approve-cases c d) [
    | inl (_, refused) ↦ absurd (refused accepted)
    | inr (a, (at, _, _), eq) ↦
        let code = ap (λ r. r.1.code) (sym eq) ∙ accepted in
        let decided = approve_pending-IsDecided c a (entered F c d) at code in
        decided-kept later (handle_approve F c d).0 (
          subst (λ i. IsDecided i (handle_approve F c d).0) (sym same_id)
            (subst (λ r. IsDecided c.approval_id r.0) (sym eq) decided))
  ]
