-- ===== src/Pipeline/Steps.antt =====
-- The steps of `executeApproved` after the policy: each leaves an approval that has ended, and sends
-- at most one transaction.
use evergent.Base.{
  ℕ, true, ◌∷◌, Option, none, some, String, ◌≡◌, ◌≢◌, refl, sym, ap, subst, ◌∙◌, ◌⊎◌, inl, inr,
  Option-cases, if_elim,
}
use evergent.Base.Result.{ok, Result-cases}
use evergent.Base.Floats.{Floats}
use evergent.Base.StringMap.{get, get-set_self}
use evergent.Shared.{
  AgentIntent, PolicyDecision, PolicyResult, allow, deny, requires_approval, SimulationResult,
}
use evergent.Approval.{ApprovalRecord, submitted, failed, update_approval}
use evergent.Network.{submit}
use evergent.Network.Gate.{MaySend, submit-cases}
use evergent.Pipeline.{Parts, PipelineConfig, Pipeline, PipelineOutcome}
use evergent.Pipeline.Approved.{
  put, submit_approved, simulate_approved, build_approved, failure_patch, submission_patch,
  executing_patch,
}
use evergent.Pipeline.Approved.Admission.{by_decision, going_on}

module _ (F : Floats) {Signed : Type 0} where
  -- The approval that the pipeline's store has under an id.
  abbrev pub approval_at : String → Pipeline F Signed → Option ApprovalRecord
  approval_at id s = elim s.approvals [ none ↦ none | some approvals ↦ get id approvals ]

  -- The stored approval has ended: it was submitted or has failed.
  abbrev pub HasEnded : String → Pipeline F Signed → Type 0
  HasEnded id s =
      (x : ApprovalRecord) × (approval_at id s ≡ some x)
      × ((x.status ≡ submitted) ⊎ (x.status ≡ failed))

module _ (F : Floats) {Signed : Type 0} (P : Parts Signed) (cfg : PipelineConfig) where
  pub put-sent :
      (id : String) (patch : ApprovalRecord → ApprovalRecord) (now : ℕ) (s : Pipeline F Signed)
      → (put F P cfg id patch now s).sent ≡ s.sent
  unfolding put
  put-sent id patch now s = elim (Option-cases s.approvals) [
    | inl e ↦ rw (e, put) refl
    | inr (a, e) ↦ rw (e, put) refl
  ]

  -- The record as an update leaves it.
  abbrev pub touched : (ApprovalRecord → ApprovalRecord) → ℕ → ApprovalRecord → ApprovalRecord
  touched patch now a = record (patch a) { updated_at = now }

  approval_at-put :
      (id : String) (patch : ApprovalRecord → ApprovalRecord) (now : ℕ) (s : Pipeline F Signed)
      (a : ApprovalRecord)
      → approval_at F id s ≡ some a
      → approval_at F id (put F P cfg id patch now s) ≡ some (touched patch now a)
  unfolding put update_approval
  approval_at-put id patch now s a at = elim (Option-cases s.approvals) [
    | inl e ↦ let no_way = (rw e at at) in cc
    | inr (m, e) ↦
        let here : get id m ≡ some a = (rw e at at) in
        rw (e, put, update_approval, here) (get-set_self id _ m)
  ]

  -- The transaction was built from the approved intent as a payment from the signer's account, its
  -- simulation succeeded, it was signed, and the submitter's gates were open.
  abbrev pub IsReady : AgentIntent → Signed → Type 0
  IsReady intent signed =
      (account : P.Account) × (tx : P.Tx) × (P.load_account ≡ ok account)
      × (P.build_payment account intent P.network_passphrase ≡ ok tx)
      × ((P.simulate tx).success ≡ true)
      × (P.sign tx ≡ ok signed)
      × MaySend cfg.submitter P.network_passphrase (P.signatures signed)

  submit_approved-sent :
      (id : String) (by : Option String) (a b : ApprovalRecord) (now : ℕ) (d : PolicyDecision)
      (x : SimulationResult) (signed : Signed) (s : Pipeline F Signed)
      → approval_at F id s ≡ some b
      → HasEnded F id (submit_approved F P cfg id by a now d x signed s).0
        × (((submit_approved F P cfg id by a now d x signed s).0.sent ≡ s.sent)
            ⊎ (MaySend cfg.submitter P.network_passphrase (P.signatures signed)
                × ((submit_approved F P cfg id by a now d x signed s).0.sent ≡ signed ∷ s.sent)))
  unfolding submit_approved
  submit_approved-sent id by a b now d x signed s at =
      let r =
        submit cfg.submitter P.signatures P.submit_transaction P.network_passphrase signed s.sent in
      let s' : Pipeline F Signed = record s { sent = r.0 } in
      let both : HasEnded F id (submit_approved F P cfg id by a now d x signed s).0
          × ((submit_approved F P cfg id by a now d x signed s).0.sent ≡ r.0) =
        elim (Result-cases r.1) [
          | inl (h, e) ↦
              rw (e, submit_approved)
                (
                  (_, approval_at-put id (submission_patch h now by) now s' b at, inl refl),
                  put-sent id (submission_patch h now by) now s',
                )
          | inr (h, e) ↦
              rw (e, submit_approved)
                (
                  (_, approval_at-put id (failure_patch h) now s' b at, inr refl),
                  put-sent id (failure_patch h) now s',
                )
        ] in
      (
        both.0,
        elim (submit-cases cfg.submitter P.signatures P.submit_transaction P.network_passphrase
            signed s.sent) [
              | inl (same, _) ↦ inl (both.1 ∙ same)
              | inr (may, sends) ↦ inr (may, both.1 ∙ sends)
            ],
      )

  -- What a step after the policy leaves: an approval that has ended, and at most one transaction.
  abbrev pub Leaves :
      String → AgentIntent → Pipeline F Signed → Pipeline F Signed × PipelineOutcome → Type 0
  Leaves id intent s r =
      HasEnded F id r.0
      × ((r.0.sent ≡ s.sent)
          ⊎ ((signed : Signed) × IsReady intent signed × (r.0.sent ≡ signed ∷ s.sent)))

  fails-HasEnded :
      (id m : String) (now : ℕ) (s : Pipeline F Signed) (b : ApprovalRecord)
      → approval_at F id s ≡ some b
      → HasEnded F id (put F P cfg id (failure_patch m) now s)
        × ((put F P cfg id (failure_patch m) now s).sent ≡ s.sent)
  fails-HasEnded id m now s b at = (
    (_, approval_at-put id (failure_patch m) now s b at, inr refl),
    put-sent id (failure_patch m) now s,
  )

  simulate_approved-Leaves :
      (id : String) (by : Option String) (a b : ApprovalRecord) (now : ℕ) (d : PolicyDecision)
      (account : P.Account) (tx : P.Tx) (s : Pipeline F Signed)
      → approval_at F id s ≡ some b
      → P.load_account ≡ ok account
      → P.build_payment account a.intent P.network_passphrase ≡ ok tx
      → Leaves id a.intent s (simulate_approved F P cfg id by a now d tx s)
  unfolding simulate_approved
  simulate_approved-Leaves id by a b now d account tx s at loads builds =
      if_elim (Leaves id a.intent s) (P.simulate tx).success _ _
        (λ good. elim (Result-cases (P.sign tx)) [
          | inl (signed, e) ↦
              let r = submit_approved-sent id by a b now d (P.simulate tx) signed s at in
              rw e (
                r.0,
                elim r.1 [
                  | inl same ↦ inl same
                  | inr (may, sends) ↦
                      inr (signed, (account, tx, loads, builds, good, e, may), sends)
                ],
              )
          | inr (m, e) ↦ let f = fails-HasEnded id m now s b at in rw e (f.0, inl f.1)
        ])
        (λ bad. let f = fails-HasEnded id _ now s b at in (f.0, inl f.1))

  build_approved-Leaves :
      (id : String) (by : Option String) (a b : ApprovalRecord) (now : ℕ) (d : PolicyDecision)
      (s : Pipeline F Signed)
      → approval_at F id s ≡ some b
      → Leaves id a.intent s (build_approved F P cfg id by a now d s)
  unfolding build_approved
  build_approved-Leaves id by a b now d s at = elim (Result-cases P.load_account) [
    | inr (m, e) ↦ let f = fails-HasEnded id m now s b at in rw (e, build_approved) (f.0, inl f.1)
    | inl (account, loads) ↦
        elim (Result-cases (P.build_payment account a.intent P.network_passphrase)) [
          | inr (m, e) ↦
              let f = fails-HasEnded id m now s b at in rw (loads, build_approved, e) (f.0, inl f.1)
          | inl (tx, builds) ↦
              let step : build_approved F P cfg id by a now d s
                  ≡ simulate_approved F P cfg id by a now d tx s =
                rw (loads, build_approved, builds) refl in
              subst (Leaves id a.intent s) (sym step)
                (simulate_approved-Leaves id by a b now d account tx s at loads builds)
        ]
  ]

  going_on-Leaves :
      (id : String) (by : Option String) (a b : ApprovalRecord) (now : ℕ) (d : PolicyDecision)
      (s : Pipeline F Signed)
      → approval_at F id s ≡ some b
      → Leaves id a.intent s (going_on F P cfg id by a now d s)
  going_on-Leaves id by a b now d s at =
      let s' = put F P cfg id executing_patch now s in
      let (ended, sends) =
        build_approved-Leaves id by a _ now d s' (approval_at-put id executing_patch now s b at) in
      let same = put-sent id executing_patch now s in
      (
        ended,
        elim sends [
          | inl e ↦ inl (e ∙ same)
          | inr (signed, ready, e) ↦ inr (signed, ready, e ∙ ap (λ t. signed ∷ t) same)
        ],
      )

  pub by_decision-Leaves :
      (r : PolicyResult) (id : String) (by : Option String) (a b : ApprovalRecord) (now : ℕ)
      (d : PolicyDecision) (s : Pipeline F Signed)
      → approval_at F id s ≡ some b
      → HasEnded F id (by_decision F P cfg r id by a now d s).0
        × (((by_decision F P cfg r id by a now d s).0.sent ≡ s.sent)
            ⊎ ((signed : Signed) × (r ≢ deny)
                × IsReady a.intent signed
                × ((by_decision F P cfg r id by a now d s).0.sent ≡ signed ∷ s.sent)))
  by_decision-Leaves deny id by a b now d s at =
      let f = fails-HasEnded id _ now s b at in (f.0, inl f.1)
  by_decision-Leaves allow id by a b now d s at =
      let (ended, sends) = going_on-Leaves id by a b now d s at in
      (
        ended,
        elim sends [ inl e ↦ inl e | inr (signed, ready, e) ↦ inr (signed, (λ h. cc), ready, e) ],
      )
  by_decision-Leaves requires_approval id by a b now d s at =
      let (ended, sends) = going_on-Leaves id by a b now d s at in
      (
        ended,
        elim sends [ inl e ↦ inl e | inr (signed, ready, e) ↦ inr (signed, (λ h. cc), ready, e) ],
      )
