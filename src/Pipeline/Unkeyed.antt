-- ===== src/Pipeline/Unkeyed.antt =====
-- What `execute` records where it is given no idempotency key is not found under any key.
use evergent.Base.{
  ℕ, Bool, false, [], ◌∷◌, Option, none, some, String, ◌≡◌, refl, sym, ap, subst, ◌∙◌, inl, inr,
  Option-cases, if_elim, arith,
}
use evergent.Base.Result.{Result-cases}
use evergent.Base.Floats.{Floats}
use evergent.Base.StringMap.{StringMap, set, values}
use evergent.Shared.{
  AgentIntent, ActivityRecord, PolicyDecision, PolicyResult, allow, deny, requires_approval,
  SimulationResult,
}
use evergent.Activity.{ActivityStore, find, has_key, get_by_idempotency_key, record_activity}
use evergent.Intents.{validate}
use evergent.Network.{submit}
use evergent.Policy.Engine.{evaluate}
use evergent.Policy.Records.{records_of, evaluate-records}
use evergent.Pipeline.{
  Parts, PipelineConfig, rules_for, Moment, evaluation, Pipeline, PipelineOutcome, persist_activity,
}
use evergent.Pipeline.Execute.{
  Source, agent_of, Call, persist, submit_signed, sign_simulated, simulate_built, build, carry_out,
}
use evergent.Pipeline.Execute.Admission.{refuse, ask, by_decision, act, execute}

pub find-set-none :
    (p : ActivityRecord → Bool) (id : String) (r : ActivityRecord) (m : StringMap ActivityRecord)
    → p r ≡ false
    → find p (values m) ≡ none
    → find p (values (set id r m)) ≡ none
unfolding set
find-set-none p id r [] miss h = rw miss refl
find-set-none p id r ((k, w) ∷ m) miss h = ground (arith, find-set-none p id r m)

module _ (F : Floats) (owner_id agent_id key : String) where
  -- The request's key leads to nothing in an activity log.
  abbrev pub IsUnknown : Option (ActivityStore F) → Type 0
  IsUnknown none = Unit
  IsUnknown (some s) = get_by_idempotency_key F owner_id agent_id key s ≡ none

  IsUnknown-records :
      (a b : Option (ActivityStore F)) → records_of F a ≡ records_of F b → IsUnknown b → IsUnknown a
  unfolding get_by_idempotency_key
  IsUnknown-records none b e h = tt
  IsUnknown-records (some a) none e h = cc
  IsUnknown-records (some a) (some b) e h =
      let found : Option (StringMap ActivityRecord) → Option ActivityRecord =
        λ o. elim o [ none ↦ none | some m ↦ find (has_key owner_id agent_id key) (values m) ] in
      ap found e ∙ h

  pub persist-IsUnknown :
      (r : ActivityRecord) (now : ℕ) (s : Option (ActivityStore F))
      → r.idempotency_key ≡ none
      → IsUnknown s
      → IsUnknown (persist_activity F r none now s)
  unfolding persist_activity get_by_idempotency_key record_activity
  persist-IsUnknown r now none e h = tt
  persist-IsUnknown r now (some s) e h =
      find-set-none (has_key owner_id agent_id key) r.id r s.records (rw e (ground arith)) h

module _ (F : Floats) {Signed : Type 0} (P : Parts Signed) (cfg : PipelineConfig)
    (owner_id agent_id key : String) where
  abbrev pub Unknown : Pipeline F Signed → Type 0
  Unknown s = IsUnknown F owner_id agent_id key s.activities

  persist_call-Unknown :
      (c : Call F P cfg) (r : ActivityRecord) (s : Pipeline F Signed)
      → c.key ≡ none
      → r.idempotency_key ≡ c.key
      → Unknown s
      → Unknown (persist F P cfg c r s)
  persist_call-Unknown c r s none_given same h =
      subst
        (λ k. IsUnknown F owner_id agent_id key (persist_activity F r k c.moment.now s.activities))
        (sym none_given)
        (persist-IsUnknown F owner_id agent_id key r c.moment.now s.activities (same ∙ none_given)
          h)

  submit_signed-Unknown :
      (c : Call F P cfg) (x : SimulationResult) (signed : Signed) (s : Pipeline F Signed)
      → c.key ≡ none
      → Unknown s
      → Unknown (submit_signed F P cfg c x signed s).0
  unfolding submit_signed
  submit_signed-Unknown c x signed s e h =
      let r =
        submit cfg.submitter P.signatures P.submit_transaction P.network_passphrase signed s.sent in
      let s' : Pipeline F Signed = record s { sent = r.0 } in
      elim (Result-cases r.1) [
        | inl (hash, f) ↦ rw (f, submit_signed) (persist_call-Unknown c _ s' e refl h)
        | inr (m, f) ↦ rw (f, submit_signed) (persist_call-Unknown c _ s' e refl h)
      ]

  sign_simulated-Unknown :
      (c : Call F P cfg) (x : SimulationResult) (tx : P.Tx) (s : Pipeline F Signed)
      → c.key ≡ none
      → Unknown s
      → Unknown (sign_simulated F P cfg c x tx s).0
  unfolding sign_simulated
  sign_simulated-Unknown c x tx s e h = elim (Result-cases (P.sign tx)) [
    | inl (signed, f) ↦ rw (f, sign_simulated) (submit_signed-Unknown c x signed s e h)
    | inr (m, f) ↦ rw (f, sign_simulated) (persist_call-Unknown c _ s e refl h)
  ]

  simulate_built-Unknown :
      (c : Call F P cfg) (tx : P.Tx) (s : Pipeline F Signed)
      → c.key ≡ none
      → Unknown s
      → Unknown (simulate_built F P cfg c tx s).0
  unfolding simulate_built
  simulate_built-Unknown c tx s e h =
      if_elim (λ (r : Pipeline F Signed × PipelineOutcome). Unknown r.0) (P.simulate tx).success _ _
        (λ good. sign_simulated-Unknown c (P.simulate tx) tx s e h)
        (λ bad. persist_call-Unknown c _ s e refl h)

  carry_out-Unknown :
      (c : Call F P cfg) (account : P.Account) (s : Pipeline F Signed)
      → c.key ≡ none
      → Unknown s
      → Unknown (carry_out F P cfg c account s).0
  unfolding carry_out
  carry_out-Unknown c account s e h = elim (Result-cases (build F P cfg account c.intent)) [
    | inl (tx, f) ↦ rw (f, carry_out) (simulate_built-Unknown c tx s e h)
    | inr (m, f) ↦ rw (f, carry_out) (persist_call-Unknown c _ s e refl h)
  ]

  ask-Unknown :
      (c : Call F P cfg) (s : Pipeline F Signed)
      → c.key ≡ none
      → Unknown s
      → Unknown (ask F P cfg c s).0
  unfolding ask
  ask-Unknown c s e h = elim (Option-cases s.activities) [
    | inl f ↦ rw (f, ask) h
    | inr (x, f) ↦ elim (Option-cases s.approvals) [
      | inl g ↦ rw (f, ask, g) h
      | inr (y, g) ↦ rw (f, ask, g) (persist_call-Unknown c _ s e refl h)
    ]
  ]

  by_decision-Unknown :
      (r : PolicyResult) (c : Call F P cfg) (account : P.Account) (s : Pipeline F Signed)
      → c.key ≡ none
      → Unknown s
      → Unknown (by_decision F P cfg r c account s).0
  unfolding refuse
  by_decision-Unknown deny c account s e h = persist_call-Unknown c _ s e refl h
  by_decision-Unknown requires_approval c account s e h = ask-Unknown c s e h
  by_decision-Unknown allow c account s e h = carry_out-Unknown c account s e h

  act-Unknown :
      (m : Moment) (intent : AgentIntent) (source : Source P.Account)
      (answer : Option (ActivityStore F) × PolicyDecision) (s : Pipeline F Signed)
      → IsUnknown F owner_id agent_id key answer.0
      → Unknown (act F P cfg m intent source none answer s).0
  unfolding act
  act-Unknown m intent source (activities, d) s h =
      by_decision-Unknown d.result _ source.account (record s { activities = activities }) refl h

  pub evaluate-IsUnknown :
      (m : Moment) (intent : AgentIntent) (agent : String) (s : Option (ActivityStore F))
      → IsUnknown F owner_id agent_id key s
      → IsUnknown F owner_id agent_id key
          (evaluate F cfg.policy_rules cfg.policy_resolver (evaluation m false) intent agent s).0
  unfolding evaluate
  evaluate-IsUnknown m intent agent s h =
      IsUnknown-records F owner_id agent_id key _ s
        (evaluate-records F (rules_for cfg agent) (evaluation m false) intent agent s) h

  pub execute-Unknown :
      (m : Moment) (intent : AgentIntent) (source : Source P.Account) (s : Pipeline F Signed)
      → Unknown s
      → Unknown (execute F P cfg m intent source none s).0
  unfolding execute
  execute-Unknown m intent source s h = elim (Option-cases (validate F intent)) [
    | inr (problem, e) ↦ rw (e, execute) h
    | inl e ↦
        rw (e, execute)
          (act-Unknown m intent source _ s
            (evaluate-IsUnknown m intent (agent_of source) s.activities h))
  ]
