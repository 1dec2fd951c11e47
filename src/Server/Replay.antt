-- ===== src/Server/Replay.antt =====
-- Whose intents have an effect, and what a repeated idempotency key does.
use evergent.Base.{
  true, Option, none, some, ◌≡◌, refl, sym, ◌∙◌, ◌⊎◌, inl, inr, Bool-cases, Option-cases, if_elim,
  is_some,
}
use evergent.Base.Floats.{Floats}
use evergent.Base.StringMap.{get}
use evergent.Base.Text.{is_given}
use evergent.Shared.{ActivityRecord}
use evergent.Agents.{Agent, Directory, is_active, can_access_agent}
use evergent.Agents.Access.{owner_of, can_access_agent_iff}
use evergent.Intents.{validate}
use evergent.Pipeline.{Parts, PipelineConfig, Moment, Pipeline}
use evergent.Server.{Reply, IntentRequest}
use evergent.Server.Handler.{
  Surroundings, known, by_known, by_agent, by_key, stored_agent, handle_intent,
}

module _ (F : Floats) {Signed : Type 0} (P : Parts Signed) (cfg : PipelineConfig)
    (w : Surroundings P.Account) where
  by_known_kept :
      (known_one : Option ActivityRecord) (m : Moment) (q : IntentRequest) (s : Pipeline F Signed)
      (e : ActivityRecord)
      → known_one ≡ some e
      → (by_known F P cfg w known_one m q s).0 ≡ s
  by_known_kept none m q s e h = cc
  by_known_kept (some x) m q s e h =
      if_elim (λ (r : Pipeline F Signed × Reply). r.0 ≡ s) _ _ _ (λ t. refl) (λ t. refl)

  by_key-known :
      (m : Moment) (q : IntentRequest) (s : Pipeline F Signed) (e : ActivityRecord)
      → is_given q.key ≡ true
      → known F P cfg w q s ≡ some e
      → (by_key F P cfg w m q s).0 ≡ s
  unfolding by_key
  by_key-known m q s e given at =
      if_elim (λ (r : Pipeline F Signed × Reply). r.0 ≡ s) (is_given q.key) _ _
        (λ yes_it_is.
          if_elim (λ (r : Pipeline F Signed × Reply). r.0 ≡ s) _ _ _ (λ t. refl)
            (λ t. by_known_kept (known F P cfg w q s) m q s e at))
        (λ missing. cc)

  -- The agent is valid for the request: its owner's, and stored as active.
  abbrev pub IsAdmitted : IntentRequest → Directory → Type 0
  IsAdmitted q d =
      (validate F q.intent ≡ none)
      × (owner_of q.agent_id d ≡ some q.owner_id)
      × ((a : Agent) × (stored_agent F P cfg w q.agent_id
              (can_access_agent (some q.owner_id) q.agent_id d).0
            ≡ some a)
          × (is_active a.status ≡ true))

  by_agent-cases :
      (found : Option Agent) (m : Moment) (q : IntentRequest) (d : Directory)
      (s : Pipeline F Signed)
      → ((by_agent F P cfg w found m q d s).1 ≡ s)
        ⊎ (((a : Agent) × (found ≡ some a) × (is_active a.status ≡ true))
            × ((by_agent F P cfg w found m q d s).1 ≡ (by_key F P cfg w m q s).0))
  by_agent-cases none m q d s = inl refl
  by_agent-cases (some a) m q d s =
      if_elim
        (λ (r : Directory × Pipeline F Signed × Reply).
          (r.1 ≡ s)
          ⊎ (((x : Agent) × (some a ≡ some x) × (is_active x.status ≡ true))
              × (r.1 ≡ (by_key F P cfg w m q s).0)))
        (is_active a.status) _ _ (λ on. inr ((a, refl, on), refl)) (λ off. inl refl)

  -- `handleIntent` leaves every store as it is and sends nothing unless the intent is valid, the
  -- agent belongs to the owner of the request, and it is stored as active; it then does what its
  -- part from the idempotency key on does.
  pub handle_intent-cases :
      (m : Moment) (q : IntentRequest) (d : Directory) (s : Pipeline F Signed)
      → ((handle_intent F P cfg w m q d s).1 ≡ s)
        ⊎ (IsAdmitted q d × ((handle_intent F P cfg w m q d s).1 ≡ (by_key F P cfg w m q s).0))
  unfolding handle_intent
  handle_intent-cases m q d s = elim (Option-cases (validate F q.intent)) [
    | inr (message, e) ↦ inl (rw (e, handle_intent) refl)
    | inl valid ↦ elim (Bool-cases (is_some (get q.agent_id d.agents))) [
      | inr gone ↦ inl (rw (valid, handle_intent, gone) refl)
      | inl here ↦ elim (Bool-cases (can_access_agent (some q.owner_id) q.agent_id d).1) [
        | inr no_access ↦ inl (rw (valid, handle_intent, here, no_access) refl)
        | inl access ↦
            let d' = (can_access_agent (some q.owner_id) q.agent_id d).0 in
            let step : (handle_intent F P cfg w m q d s).1
                ≡ (by_agent F P cfg w (stored_agent F P cfg w q.agent_id d') m q d' s).1 =
              rw (valid, handle_intent, here, access) refl in
            let (o, same, owned) = (can_access_agent_iff (some q.owner_id) q.agent_id d).0 access in
            let mine : owner_of q.agent_id d ≡ some q.owner_id = owned ∙ sym same in
            elim (by_agent-cases (stored_agent F P cfg w q.agent_id d') m q d' s) [
              | inl kept ↦ inl (step ∙ kept)
              | inr (on, runs) ↦ inr ((valid, mine, on), step ∙ runs)
            ]
      ]
    ]
  ]

  -- A repeated key has no effect, whatever the intent, the agent and the moment: where the activity
  -- log has a record of the request's owner and agent under the key, `handleIntent` leaves every
  -- store as it is and sends nothing.
  pub handle_intent-known :
      (m : Moment) (q : IntentRequest) (d : Directory) (s : Pipeline F Signed) (e : ActivityRecord)
      → is_given q.key ≡ true
      → known F P cfg w q s ≡ some e
      → (handle_intent F P cfg w m q d s).1 ≡ s
  handle_intent-known m q d s e given at = elim (handle_intent-cases m q d s) [
    | inl kept ↦ kept
    | inr (admitted, runs) ↦ runs ∙ by_key-known m q s e given at
  ]
