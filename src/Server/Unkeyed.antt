-- ===== src/Server/Unkeyed.antt =====
-- An intent that the policy allows is executed without its idempotency key, so that the request can
-- be repeated.
use evergent.Base.{false, Option, none, some, String, ◌≡◌, refl, if_elim, get_or_else, ltb, arith}
use evergent.Base.Result.{Result, ok, error}
use evergent.Base.Floats.{Floats}
use evergent.Base.Text.{is_given, js_length}
use evergent.Shared.{ActivityRecord, PolicyDecision, PolicyResult, allow, deny, requires_approval}
use evergent.Activity.{ActivityStore, get_by_idempotency_key, has_key, record_activity}
use evergent.Policy.Engine.{evaluate}
use evergent.Pipeline.{Parts, PipelineConfig, Moment, evaluation, Pipeline}
use evergent.Pipeline.Unkeyed.{find-set-none, IsUnknown, evaluate-IsUnknown, execute-Unknown}
use evergent.Server.{Reply, IntentRequest}
use evergent.Server.Handler.{
  Surroundings, add_activity, request_source, unloaded, with_account, by_decision, evaluated,
  carry_on, known, by_known, by_key,
}

module _ (F : Floats) {Signed : Type 0} (P : Parts Signed) (cfg : PipelineConfig)
    (w : Surroundings P.Account) where
  -- The text of the request's key.
  abbrev key_of : IntentRequest → String
  key_of q = get_or_else q.key ""

  abbrev IsNew : IntentRequest → Option (ActivityStore F) → Type 0
  IsNew q a = IsUnknown F q.owner_id q.agent_id (key_of q) a

  add_activity-IsNew :
      (q : IntentRequest) (r : ActivityRecord) (a : Option (ActivityStore F))
      → r.idempotency_key ≡ none
      → IsNew q a
      → IsNew q (add_activity F P cfg w r a)
  unfolding get_by_idempotency_key record_activity
  add_activity-IsNew q r none e h = tt
  add_activity-IsNew q r (some a) e h =
      find-set-none (has_key q.owner_id q.agent_id (key_of q)) r.id r a.records
        (rw e (ground arith)) h

  unloaded-IsNew :
      (m : Moment) (q : IntentRequest) (d : PolicyDecision) (message : String)
      (s : Pipeline F Signed)
      → IsNew q s.activities
      → IsNew q (unloaded F P cfg w m q d message s).0.activities
  unfolding unloaded
  unloaded-IsNew m q d message s h = add_activity-IsNew q _ s.activities refl h

  with_account-IsNew :
      (account : Result P.Account) (m : Moment) (q : IntentRequest) (d : PolicyDecision)
      (s : Pipeline F Signed)
      → IsNew q s.activities
      → IsNew q (with_account F P cfg w account m q d s).0.activities
  with_account-IsNew (error message) m q d s h = unloaded-IsNew m q d message s h
  with_account-IsNew (ok account) m q d s h =
      execute-Unknown F P cfg q.owner_id q.agent_id (key_of q) m q.intent
        (request_source F P cfg w account q) s h

  by_decision-IsNew :
      (r : PolicyResult) (m : Moment) (q : IntentRequest) (d : PolicyDecision)
      (s : Pipeline F Signed)
      → r ≡ allow
      → IsNew q s.activities
      → IsNew q (by_decision F P cfg w r m q d s).0.activities
  by_decision-IsNew deny m q d s e h = cc
  by_decision-IsNew requires_approval m q d s e h = cc
  by_decision-IsNew allow m q d s e h = with_account-IsNew P.load_account m q d s h

  evaluated-IsNew :
      (m : Moment) (q : IntentRequest) (answer : Option (ActivityStore F) × PolicyDecision)
      (s : Pipeline F Signed)
      → answer.1.result ≡ allow
      → IsNew q answer.0
      → IsNew q (evaluated F P cfg w m q answer s).0.activities
  unfolding evaluated
  evaluated-IsNew m q (activities, d) s e h =
      by_decision-IsNew d.result m q d (record s { activities = activities }) e h

  known→IsNew :
      (q : IntentRequest) (a : Option (ActivityStore F))
      → elim a as (λ x. Option ActivityRecord) [
        | none ↦ none
        | some x ↦ get_by_idempotency_key F q.owner_id q.agent_id (key_of q) x
      ]
        ≡ none
      → IsNew q a
  known→IsNew q none h = tt
  known→IsNew q (some x) h = h

  IsNew→known :
      (q : IntentRequest) (a : Option (ActivityStore F))
      → IsNew q a
      → elim a as (λ x. Option ActivityRecord) [
        | none ↦ none
        | some x ↦ get_by_idempotency_key F q.owner_id q.agent_id (key_of q) x
      ]
        ≡ none
  IsNew→known q none h = refl
  IsNew→known q (some x) h = h

  by_known_new :
      (o : Option ActivityRecord) (m : Moment) (q : IntentRequest) (s : Pipeline F Signed)
      → o ≡ none
      → known F P cfg w q (carry_on F P cfg w m q s).0 ≡ none
      → known F P cfg w q (by_known F P cfg w o m q s).0 ≡ none
  by_known_new none m q s e h = h
  by_known_new (some x) m q s e h = cc

  -- Where the policy allows an intent and the key of its request leads to nothing, the key still
  -- leads to nothing after the request, whatever was executed; so a repetition of the request is
  -- treated as the first.
  pub by_key_forgotten :
      (m : Moment) (q : IntentRequest) (s : Pipeline F Signed)
      → known F P cfg w q s ≡ none
      → (evaluate F cfg.policy_rules cfg.policy_resolver
          (evaluation m false)
          q.intent
          q.agent_id
          s.activities).1.result
        ≡ allow
      → known F P cfg w q (by_key F P cfg w m q s).0 ≡ none
  unfolding by_key
  by_key_forgotten m q s fresh allowed =
      let Stays : Pipeline F Signed × Reply → Type 0 = λ r. known F P cfg w q r.0 ≡ none in
      let goes_on : Stays (carry_on F P cfg w m q s) = IsNew→known q _ (
        evaluated-IsNew m q _ s allowed (
          evaluate-IsUnknown F P cfg q.owner_id q.agent_id (key_of q) m q.intent q.agent_id
            s.activities (known→IsNew q s.activities fresh))) in
      if_elim Stays (is_given q.key) _ _
        (λ given.
          if_elim Stays (ltb 256 (js_length (key_of q))) _ _ (λ long. fresh)
            (λ short. by_known_new (known F P cfg w q s) m q s fresh goes_on))
        (λ missing. goes_on)
