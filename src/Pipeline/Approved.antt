-- ===== src/Pipeline/Approved.antt =====
-- `TransactionPipeline.executeApproved` of packages/stellar/src/pipeline.ts: an approved intent is
-- carried out under the policy of now. The steps after the policy are functions of their own.
pub mod Admission
use evergent.Base.{ℕ, Bool, false, Option, none, some, String, if◌then◌else◌, get_or_else, ltb}
use evergent.Base.Result.{ok, error}
use evergent.Base.Floats.{Floats}
use evergent.Base.Text.{◌<>◌, is_truthy}
use evergent.Shared.{
  PolicyDecision, SimulationResult, ActivityRecord, ActivityStatus, AuthorizationStatus,
}
use evergent.Activity.{ActivityStore, update_activity}
use evergent.Approval.{
  ApprovalRecord, approved, expired, executing, submitted, failed, update_approval,
}
use evergent.Network.{submit}
use evergent.Pipeline.{
  Parts, PipelineConfig, OutcomeStatus, PipelineOutcome, outcome, denied, Pipeline,
}

-- The approval has a time limit that has passed.
abbrev pub is_expired : Option ℕ → ℕ → Bool
is_expired none now = false
is_expired (some expires_at) now = ltb expires_at now

abbrev pub expiry_patch : ℕ → ApprovalRecord → ApprovalRecord
expiry_patch now a = record a { status = expired; expired_at = some now }

abbrev pub executing_patch : ApprovalRecord → ApprovalRecord
executing_patch a = record a { status = executing }

abbrev pub failure_patch : String → ApprovalRecord → ApprovalRecord
failure_patch message a = record a { status = failed; error = some message }

abbrev pub submission_patch : String → ℕ → Option String → ApprovalRecord → ApprovalRecord
submission_patch hash now approver a = record a {
  status = submitted;
  tx_hash = some hash;
  approved_at = some now;
  approver = approver;
}

abbrev pub activity_patch : String → SimulationResult → ActivityRecord → ActivityRecord
activity_patch hash simulation r = record r {
  status = ActivityStatus.submitted;
  tx_hash = some hash;
  simulation_result = some simulation;
  authorization_status = some AuthorizationStatus.approved;
}

module _ (F : Floats) {Signed : Type 0} (P : Parts Signed) (cfg : PipelineConfig) where
  -- `approvalStore.update`
  unfoldable pub put :
      String → (ApprovalRecord → ApprovalRecord) → ℕ → Pipeline F Signed → Pipeline F Signed
  unfolding update_approval
  put id patch now s = elim s.approvals [
    | none ↦ s
    | some approvals ↦ record s { approvals = some (update_approval id patch now approvals).0 }
  ]

  -- A step that fails: the approval is stored as failed.
  abbrev pub fails :
      String
      → ApprovalRecord
      → ℕ
      → OutcomeStatus
      → String
      → String
      → PolicyDecision
      → Option SimulationResult
      → Option String
      → Pipeline F Signed
      → Pipeline F Signed × PipelineOutcome
  fails id a now status problem message decision simulation tx_hash s = (
    put id (failure_patch problem) now s,
    record (outcome status message decision) {
      simulation_result = simulation;
      tx_hash = tx_hash;
      activity_id = some a.activity_id;
    },
  )

  -- The activity of the approval is brought up to date where the store has it.
  abbrev pub note_activity :
      ApprovalRecord
      → String
      → SimulationResult
      → ℕ
      → Option (ActivityStore F)
      → Option (ActivityStore F)
  note_activity a hash simulation now none = none
  note_activity a hash simulation now (some s) =
      if is_truthy a.activity_id
      then some (update_activity F a.activity_id (activity_patch hash simulation) now s).0
      else some s

  -- The last step: submission.
  unfoldable pub submit_approved :
      String
      → Option String
      → ApprovalRecord
      → ℕ
      → PolicyDecision
      → SimulationResult
      → Signed
      → Pipeline F Signed
      → Pipeline F Signed × PipelineOutcome
  unfolding put submit update_activity
  submit_approved id approver a now decision simulation signed s =
      let (sent, result) =
        submit cfg.submitter P.signatures P.submit_transaction P.network_passphrase signed s.sent in
      let s' : Pipeline F Signed = record s { sent = sent } in
      elim result [
        | ok hash ↦
            let s'' = put id (submission_patch hash now approver) now s' in
            (
              record s'' { activities = note_activity a hash simulation now s''.activities },
              record (outcome OutcomeStatus.submitted ("Transaction submitted: " <> hash)
                  decision) {
                    simulation_result = some simulation;
                    tx_hash = some hash;
                    activity_id = some a.activity_id;
                  },
            )
        | error message ↦
            fails id a now OutcomeStatus.rejected message ("Submission failed: " <> message)
              (denied "submission" "approval" (some a.intent)) (some simulation)
              (some (P.hash signed)) s'
      ]

  -- Simulation and signing.
  unfoldable pub simulate_approved :
      String
      → Option String
      → ApprovalRecord
      → ℕ
      → PolicyDecision
      → P.Tx
      → Pipeline F Signed
      → Pipeline F Signed × PipelineOutcome
  unfolding put submit_approved
  simulate_approved id approver a now decision tx s =
      let simulation = P.simulate tx in
      let problem = get_or_else simulation.error "Simulation failed" in
      if simulation.success
      then elim (P.sign tx) [
        | ok signed ↦ submit_approved id approver a now decision simulation signed s
        | error message ↦
            fails id a now OutcomeStatus.rejected message ("Signing failed: " <> message)
              (denied "signing" "approval" (some a.intent)) (some simulation) none s
      ]
      else fails id a now OutcomeStatus.simulation_failed problem problem
          (denied "simulation" "approval" (some a.intent)) (some simulation) none s

  -- The source account and the transaction, which is always built as a payment.
  unfoldable pub build_approved :
      String
      → Option String
      → ApprovalRecord
      → ℕ
      → PolicyDecision
      → Pipeline F Signed
      → Pipeline F Signed × PipelineOutcome
  unfolding put simulate_approved
  build_approved id approver a now decision s = elim P.load_account [
    | error message ↦
        fails id a now OutcomeStatus.rejected message ("Cannot load source account: " <> message)
          (denied "account load failed" "approval" (some a.intent)) none none s
    | ok account ↦ elim (P.build_payment account a.intent P.network_passphrase) [
      | error message ↦
          fails id a now OutcomeStatus.rejected message ("Construction failed: " <> message)
            (denied "construction" "approval" (some a.intent)) none none s
      | ok tx ↦ simulate_approved id approver a now decision tx s
    ]
  ]
