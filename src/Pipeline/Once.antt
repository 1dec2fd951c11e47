-- ===== src/Pipeline/Once.antt =====
-- What must have happened before `executeApproved` gives a transaction to Horizon, and that it does
-- so once for an approval.
use evergent.Base.{
  true, false, ◌∷◌, Option, some, String, ◌≡◌, ◌≢◌, refl, sym, ap, subst, ◌∙◌, ◌⊎◌, inl, inr,
  Option-cases, if_elim,
}
use evergent.Base.Floats.{Floats}
use evergent.Base.StringMap.{get}
use evergent.Shared.{PolicyDecision, deny}
use evergent.Activity.{ActivityStore}
use evergent.Approval.{
  ApprovalStore, ApprovalRecord, ApprovalStatus, pending_approval, approved, rejected, expired,
  executing, submitted, confirmed, failed,
}
use evergent.Policy.Engine.{evaluate}
use evergent.Pipeline.{Parts, PipelineConfig, Moment, evaluation, Pipeline, PipelineOutcome}
use evergent.Pipeline.Steps.{approval_at, HasEnded, put-sent, IsReady, by_decision-Leaves}
use evergent.Pipeline.Approved.{expiry_patch, is_expired}
use evergent.Pipeline.Approved.Admission.{reevaluate, by_status, execute_approved}

module _ (F : Floats) {Signed : Type 0} (P : Parts Signed) (cfg : PipelineConfig) where
  -- The policy's decision on an approved intent.
  abbrev pub decision_now : ApprovalRecord → Moment → Pipeline F Signed → PolicyDecision
  decision_now a m s =
      (evaluate F cfg.policy_rules cfg.policy_resolver (evaluation m true) a.intent a.agent_id
        s.activities).1

  reevaluate-Leaves :
      (id : String) (by : Option String) (a : ApprovalRecord) (m : Moment)
      (answer : Option (ActivityStore F) × PolicyDecision) (s : Pipeline F Signed)
      → approval_at F id s ≡ some a
      → HasEnded F id (reevaluate F P cfg id by a m answer s).0
        × (((reevaluate F P cfg id by a m answer s).0.sent ≡ s.sent)
            ⊎ ((signed : Signed) × (answer.1.result ≢ deny)
                × IsReady F P cfg a.intent signed
                × ((reevaluate F P cfg id by a m answer s).0.sent ≡ signed ∷ s.sent)))
  unfolding reevaluate
  reevaluate-Leaves id by a m (activities, d) s at =
      by_decision-Leaves F P cfg d.result id by a a m.now d (record s { activities = activities })
        at

  -- What `by_status` leaves: nothing is sent, or the approval has ended with one transaction sent.
  abbrev pub IsAnswer :
      String
      → ApprovalStatus
      → ApprovalRecord
      → Moment
      → Pipeline F Signed
      → Pipeline F Signed × PipelineOutcome
      → Type 0
  IsAnswer id status a m s r =
      (r.0.sent ≡ s.sent)
      ⊎ ((signed : Signed) × (status ≡ approved)
          × (is_expired a.expires_at m.now ≡ false)
          × ((decision_now a m s).result ≢ deny)
          × IsReady F P cfg a.intent signed
          × (r.0.sent ≡ signed ∷ s.sent)
          × HasEnded F id r.0)

  by_status-Leaves :
      (status : ApprovalStatus) (id : String) (by : Option String) (a : ApprovalRecord) (m : Moment)
      (s : Pipeline F Signed)
      → approval_at F id s ≡ some a
      → IsAnswer id status a m s (by_status F P cfg status id by a m s)
  unfolding by_status
  by_status-Leaves submitted id by a m s at = inl refl
  by_status-Leaves confirmed id by a m s at = inl refl
  by_status-Leaves pending_approval id by a m s at = inl refl
  by_status-Leaves rejected id by a m s at = inl refl
  by_status-Leaves expired id by a m s at = inl refl
  by_status-Leaves executing id by a m s at = inl refl
  by_status-Leaves failed id by a m s at = inl refl
  by_status-Leaves approved id by a m s at =
      if_elim (IsAnswer id approved a m s) (is_expired a.expires_at m.now) _ _
        (λ late. inl (put-sent F P cfg id (expiry_patch m.now) m.now s))
        (λ timely.
          let (ended, sends) = reevaluate-Leaves id by a m _ s at in
          elim sends [
            | inl same ↦ inl same
            | inr (signed, allows, ready, e) ↦ inr (signed, refl, timely, allows, ready, e, ended)
          ])

  execute_approved_found :
      (m : Moment) (id : String) (by : Option String) (s : Pipeline F Signed)
      (approvals : ApprovalStore) (activities : ActivityStore F) (a : ApprovalRecord)
      → s.approvals ≡ some approvals
      → s.activities ≡ some activities
      → get id approvals ≡ some a
      → execute_approved F P cfg m id by s ≡ by_status F P cfg a.status id by a m s
  unfolding execute_approved
  execute_approved_found m id by s approvals activities a e f g = simp (execute_approved, e, f, g)

  -- `executeApproved` gives at most one transaction to Horizon, and only if the stored approval is
  -- approved and not expired, the policy of now does not deny its intent, the transaction was built
  -- from it, its simulation succeeded and it was signed, on the test network, with submission
  -- enabled. The approval is then stored as submitted or failed.
  pub execute_approved-sent :
      (m : Moment) (id : String) (by : Option String) (s : Pipeline F Signed)
      → ((execute_approved F P cfg m id by s).0.sent ≡ s.sent)
        ⊎ ((a : ApprovalRecord) × (signed : Signed) × (approval_at F id s ≡ some a)
            × (a.status ≡ approved)
            × (is_expired a.expires_at m.now ≡ false)
            × ((decision_now a m s).result ≢ deny)
            × IsReady F P cfg a.intent signed
            × ((execute_approved F P cfg m id by s).0.sent ≡ signed ∷ s.sent)
            × HasEnded F id (execute_approved F P cfg m id by s).0)
  unfolding execute_approved
  execute_approved-sent m id by s = elim (Option-cases s.approvals) [
    | inl e ↦ inl (rw (e, execute_approved) refl)
    | inr (approvals, e) ↦ elim (Option-cases s.activities) [
      | inl f ↦ inl (rw (e, execute_approved, f) refl)
      | inr (activities, f) ↦ elim (Option-cases (get id approvals)) [
        | inl g ↦ inl (rw (e, execute_approved, f, g) refl)
        | inr (a, g) ↦
            let at : approval_at F id s ≡ some a = rw e g in
            let step : execute_approved F P cfg m id by s ≡ by_status F P cfg a.status id by a m s =
              execute_approved_found m id by s approvals activities a e f g in
            elim (by_status-Leaves a.status id by a m s at) [
              | inl same ↦ inl (ap (λ r. r.0.sent) step ∙ same)
              | inr (signed, is, timely, allows, ready, sends, ended) ↦ inr (
                a,
                signed,
                at,
                is,
                timely,
                allows,
                ready,
                ap (λ r. r.0.sent) step ∙ sends,
                subst (λ r. HasEnded F id r.0) (sym step) ended,
              )
            ]
      ]
    ]
  ]

  by_status_ended :
      (status : ApprovalStatus) (id : String) (by : Option String) (a : ApprovalRecord) (m : Moment)
      (s : Pipeline F Signed)
      → (status ≡ submitted) ⊎ (status ≡ failed)
      → (by_status F P cfg status id by a m s).0 ≡ s
  unfolding by_status
  by_status_ended submitted id by a m s h = refl
  by_status_ended confirmed id by a m s h = refl
  by_status_ended pending_approval id by a m s h = refl
  by_status_ended rejected id by a m s h = refl
  by_status_ended expired id by a m s h = refl
  by_status_ended executing id by a m s h = refl
  by_status_ended failed id by a m s h = refl
  by_status_ended approved id by a m s (inl h) = cc
  by_status_ended approved id by a m s (inr h) = cc

  -- An approval that has ended is not executed again: everything stays as it is.
  pub execute_approved_ended :
      (m : Moment) (id : String) (by : Option String) (s : Pipeline F Signed)
      → HasEnded F id s
      → (execute_approved F P cfg m id by s).0 ≡ s
  unfolding execute_approved
  execute_approved_ended m id by s (x, at, ended) = elim (Option-cases s.approvals) [
    | inl e ↦ simp (execute_approved, e)
    | inr (approvals, e) ↦ elim (Option-cases s.activities) [
      | inl f ↦ simp (execute_approved, e, f)
      | inr (activities, f) ↦
          let here : get id approvals ≡ some x = (rw e at at) in
          ap (λ r. r.0) (execute_approved_found m id by s approvals activities x e f here)
          ∙ by_status_ended x.status id by x m s ended
    ]
  ]
