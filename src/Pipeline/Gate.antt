-- ===== src/Pipeline/Gate.antt =====
-- What must have happened before `execute` gives a transaction to Horizon.
use evergent.Base.{
  true, false, ◌∷◌, Option, none, String, ◌≡◌, refl, ◌∙◌, ◌⊎◌, inl, inr, Option-cases, if_elim,
}
use evergent.Base.Result.{ok, Result-cases}
use evergent.Base.Floats.{Floats}
use evergent.Shared.{
  AgentIntent, PolicyDecision, PolicyResult, allow, deny, requires_approval, SimulationResult,
}
use evergent.Activity.{ActivityStore}
use evergent.Intents.{validate}
use evergent.Network.{submit}
use evergent.Network.Gate.{MaySend, submit-cases}
use evergent.Policy.Engine.{evaluate}
use evergent.Pipeline.{Parts, PipelineConfig, Moment, evaluation, Pipeline, PipelineOutcome}
use evergent.Pipeline.Execute.{
  Source, agent_of, Call, submit_signed, sign_simulated, simulate_built, build, carry_out,
}
use evergent.Pipeline.Execute.Admission.{refuse, ask, by_decision, act, execute}

module _ (F : Floats) {Signed : Type 0} (P : Parts Signed) (cfg : PipelineConfig) where
  -- The decision of the policy engine on an intent that is executed.
  abbrev pub decision_on :
      Moment → AgentIntent → Source P.Account → Pipeline F Signed → PolicyDecision
  decision_on m intent source s =
      (evaluate F cfg.policy_rules cfg.policy_resolver (evaluation m false) intent (agent_of source)
        s.activities).1

  -- The transaction was built from the intent, its simulation succeeded, it was signed, and the
  -- submitter's gates were open.
  abbrev pub IsCleared : P.Account → AgentIntent → Signed → Type 0
  IsCleared account intent signed =
      (tx : P.Tx) × (build F P cfg account intent ≡ ok tx)
      × ((P.simulate tx).success ≡ true)
      × (P.sign tx ≡ ok signed)
      × MaySend cfg.submitter P.network_passphrase (P.signatures signed)

  submit_signed-sent :
      (c : Call F P cfg) (x : SimulationResult) (signed : Signed) (s : Pipeline F Signed)
      → ((submit_signed F P cfg c x signed s).0.sent ≡ s.sent)
        ⊎ (MaySend cfg.submitter P.network_passphrase (P.signatures signed)
            × ((submit_signed F P cfg c x signed s).0.sent ≡ signed ∷ s.sent))
  unfolding submit_signed
  submit_signed-sent c x signed s =
      let r =
        submit cfg.submitter P.signatures P.submit_transaction P.network_passphrase signed s.sent in
      let sent : (submit_signed F P cfg c x signed s).0.sent ≡ r.0 = elim (Result-cases r.1) [
        | inl (h, e) ↦ rw (e, submit_signed) refl
        | inr (h, e) ↦ rw (e, submit_signed) refl
      ] in
      elim (submit-cases cfg.submitter P.signatures P.submit_transaction P.network_passphrase signed
        s.sent) [ inl (same, _) ↦ inl (sent ∙ same) | inr (may, sends) ↦ inr (may, sent ∙ sends) ]

  sign_simulated-sent :
      (c : Call F P cfg) (x : SimulationResult) (tx : P.Tx) (s : Pipeline F Signed)
      → ((sign_simulated F P cfg c x tx s).0.sent ≡ s.sent)
        ⊎ ((signed : Signed) × (P.sign tx ≡ ok signed)
            × MaySend cfg.submitter P.network_passphrase (P.signatures signed)
            × ((sign_simulated F P cfg c x tx s).0.sent ≡ signed ∷ s.sent))
  unfolding sign_simulated
  sign_simulated-sent c x tx s = elim (Result-cases (P.sign tx)) [
    | inr (m, e) ↦ inl (rw (e, sign_simulated) refl)
    | inl (signed, e) ↦ elim (submit_signed-sent c x signed s) [
      | inl same ↦ inl (rw (e, sign_simulated) same)
      | inr (may, sends) ↦ inr (signed, e, may, rw (e, sign_simulated) sends)
    ]
  ]

  simulate_built-sent :
      (c : Call F P cfg) (tx : P.Tx) (s : Pipeline F Signed)
      → ((simulate_built F P cfg c tx s).0.sent ≡ s.sent)
        ⊎ (((P.simulate tx).success ≡ true)
            × ((signed : Signed) × (P.sign tx ≡ ok signed)
                × MaySend cfg.submitter P.network_passphrase (P.signatures signed)
                × ((simulate_built F P cfg c tx s).0.sent ≡ signed ∷ s.sent)))
  unfolding simulate_built
  simulate_built-sent c tx s =
      if_elim
        (λ (r : Pipeline F Signed × PipelineOutcome).
          (r.0.sent ≡ s.sent)
          ⊎ (((P.simulate tx).success ≡ true)
              × ((signed : Signed) × (P.sign tx ≡ ok signed)
                  × MaySend cfg.submitter P.network_passphrase (P.signatures signed)
                  × (r.0.sent ≡ signed ∷ s.sent))))
        (P.simulate tx).success _ _
        (λ good. elim (sign_simulated-sent c (P.simulate tx) tx s) [
          | inl same ↦ inl same
          | inr sends ↦ inr (good, sends)
        ])
        (λ bad. inl refl)

  carry_out-sent :
      (c : Call F P cfg) (account : P.Account) (s : Pipeline F Signed)
      → ((carry_out F P cfg c account s).0.sent ≡ s.sent)
        ⊎ ((signed : Signed) × IsCleared account c.intent signed
            × ((carry_out F P cfg c account s).0.sent ≡ signed ∷ s.sent))
  unfolding carry_out
  carry_out-sent c account s = elim (Result-cases (build F P cfg account c.intent)) [
    | inr (m, e) ↦ inl (rw (e, carry_out) refl)
    | inl (tx, e) ↦ elim (simulate_built-sent c tx s) [
      | inl same ↦ inl (rw (e, carry_out) same)
      | inr (good, (signed, signs, may, sends)) ↦
          inr (signed, (tx, e, good, signs, may), rw (e, carry_out) sends)
    ]
  ]

  ask-sent : (c : Call F P cfg) (s : Pipeline F Signed) → (ask F P cfg c s).0.sent ≡ s.sent
  unfolding ask
  ask-sent c s = elim (Option-cases s.activities) [
    | inl e ↦ rw (e, ask) refl
    | inr (x, e) ↦ elim (Option-cases s.approvals) [
      | inl f ↦ rw (e, ask, f) refl
      | inr (y, f) ↦ rw (e, ask, f) refl
    ]
  ]

  by_decision-sent :
      (r : PolicyResult) (c : Call F P cfg) (account : P.Account) (s : Pipeline F Signed)
      → ((by_decision F P cfg r c account s).0.sent ≡ s.sent)
        ⊎ ((signed : Signed) × (r ≡ allow)
            × IsCleared account c.intent signed
            × ((by_decision F P cfg r c account s).0.sent ≡ signed ∷ s.sent))
  unfolding refuse
  by_decision-sent deny c account s = inl refl
  by_decision-sent requires_approval c account s = inl (ask-sent c s)
  by_decision-sent allow c account s = elim (carry_out-sent c account s) [
    | inl same ↦ inl same
    | inr (signed, clear, sends) ↦ inr (signed, refl, clear, sends)
  ]

  act-sent :
      (m : Moment) (intent : AgentIntent) (source : Source P.Account) (key : Option String)
      (answer : Option (ActivityStore F) × PolicyDecision) (s : Pipeline F Signed)
      → ((act F P cfg m intent source key answer s).0.sent ≡ s.sent)
        ⊎ ((signed : Signed) × (answer.1.result ≡ allow)
            × IsCleared source.account intent signed
            × ((act F P cfg m intent source key answer s).0.sent ≡ signed ∷ s.sent))
  unfolding act
  act-sent m intent source key (activities, decision) s =
      by_decision-sent decision.result _ source.account (record s { activities = activities })

  -- `execute` gives at most one transaction to Horizon, and only if the intent is valid, the policy
  -- allows it, the transaction was built from it, its simulation succeeded and it was signed, on
  -- the test network, with submission enabled.
  pub execute-sent :
      (m : Moment) (intent : AgentIntent) (source : Source P.Account) (key : Option String)
      (s : Pipeline F Signed)
      → ((execute F P cfg m intent source key s).0.sent ≡ s.sent)
        ⊎ ((signed : Signed) × (validate F intent ≡ none)
            × ((decision_on m intent source s).result ≡ allow)
            × IsCleared source.account intent signed
            × ((execute F P cfg m intent source key s).0.sent ≡ signed ∷ s.sent))
  unfolding execute
  execute-sent m intent source key s = elim (Option-cases (validate F intent)) [
    | inr (problem, e) ↦ inl (rw (e, execute) refl)
    | inl e ↦
        let answer =
          evaluate F cfg.policy_rules cfg.policy_resolver (evaluation m false) intent
            (agent_of source) s.activities in
        elim (act-sent m intent source key answer s) [
          | inl same ↦ inl (rw (e, execute) same)
          | inr (signed, allows, clear, sends) ↦
              inr (signed, e, allows, clear, rw (e, execute) sends)
        ]
  ]
