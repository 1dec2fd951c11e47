-- ===== src/Pipeline/Attempts.antt =====
-- Executing one approval again and again by `executeApproved` of packages/stellar/src/pipeline.ts,
-- with whatever the network and the clock answer each time. Each call begins after the one before
-- has ended. Calls that overlap are another matter: `executeApproved` waits between reading the
-- approval and marking it as executing, and a second call can read it in between.
use evergent.Base.{
  ◌+◌, ◌≤◌, List, [], ◌∷◌, Option, String, ◌≡◌, refl, ap, subst, ◌∙◌, inl, inr, length, arith,
}
use evergent.Base.Floats.{Floats}
use evergent.Pipeline.{Parts, PipelineConfig, Moment, Pipeline}
use evergent.Pipeline.Approved.Admission.{execute_approved}
use evergent.Pipeline.Steps.{HasEnded}
use evergent.Pipeline.Once.{execute_approved-sent, execute_approved_ended}

pub record Attempt (Signed : Type 0) : Type 1 where
  pub parts : Parts Signed
  pub config : PipelineConfig
  pub moment : Moment
  pub approver : Option String

module _ (F : Floats) {Signed : Type 0} where
  unfoldable pub attempt : String → Attempt Signed → Pipeline F Signed → Pipeline F Signed
  unfolding execute_approved
  attempt id t s = (execute_approved F t.parts t.config t.moment id t.approver s).0

  unfoldable pub attempts : String → List (Attempt Signed) → Pipeline F Signed → Pipeline F Signed
  unfolding attempt
  attempts id [] s = s
  attempts id (t ∷ ts) s = attempts id ts (attempt id t s)

  attempts_ended :
      (id : String) (ts : List (Attempt Signed)) (s : Pipeline F Signed)
      → HasEnded F id s
      → attempts id ts s ≡ s
  unfolding attempts attempt
  attempts_ended id [] s h = refl
  attempts_ended id (t ∷ ts) s h =
      let same = execute_approved_ended F t.parts t.config t.moment id t.approver s h in
      ap (attempts id ts) same ∙ attempts_ended id ts s h

  -- If an approval is executed any number of times, each call beginning after the one before has
  -- ended, then at most one transaction is given to Horizon for it, whatever the chain, the clock
  -- and the policy answer each time. Calls that overlap are not covered.
  pub attempts-sent :
      (id : String) (ts : List (Attempt Signed)) (s : Pipeline F Signed)
      → length (attempts id ts s).sent ≤ length s.sent + 1
  unfolding attempts attempt
  attempts-sent id [] s = omega arith
  attempts-sent id (t ∷ ts) s =
      let next = attempt id t s in
      elim (execute_approved-sent F t.parts t.config t.moment id t.approver s) [
        | inl same ↦
            subst (λ l. length (attempts id ts next).sent ≤ length l + 1) same
              (attempts-sent id ts next)
        | inr (a, signed, _, _, _, _, _, sends, ended) ↦
            let last = ap (λ x. length x.sent) (attempts_ended id ts next ended) in
            let one = ap length sends in omega (arith, last, one)
      ]
