-- ===== src/Stellar/Trustlines.antt =====
-- `executeApproved` of packages/stellar/src/pipeline.ts builds every intent as a payment, which the
-- builder of packages/stellar/src/transaction-builder.ts refuses for all but payments.
use evergent.Base.{Option, none, some, String, ◌∷◌, ◌≡◌, refl, ◌⊎◌, inl, inr}
use evergent.Base.Result.{ok}
use evergent.Base.Floats.{Floats}
use evergent.Shared.{
  AgentIntent, PaymentIntent, payment, trustline, contract_call, account_settings,
}
use evergent.Pipeline.{PipelineConfig, Moment, Pipeline}
use evergent.Pipeline.Once.{execute_approved-sent}
use evergent.Pipeline.Steps.{approval_at}
use evergent.Pipeline.Approved.Admission.{execute_approved}
use evergent.Stellar.{Sdk}
use evergent.Stellar.Builder.{build_payment}
use evergent.Stellar.Local.{Surroundings, parts_of, sign_locally}
use evergent.Stellar.Simulator.Preconditions.{IsAdmitted, simulate-IsAdmitted}
use evergent.Approval.{ApprovalRecord}

module _ (F : Floats) (S : Sdk) {Keypair : Type 0} (w : Surroundings F S Keypair) where
  only_payment :
      (account : S.Account) (intent : AgentIntent) (passphrase : String) (tx : S.Transaction)
      → build_payment F S w.memo_text account intent passphrase ≡ ok tx
      → (p : PaymentIntent) × (intent ≡ payment p)
  unfolding build_payment
  only_payment account (payment p) passphrase tx h = (p, refl)
  only_payment account (trustline t) passphrase tx h = cc
  only_payment account (contract_call c) passphrase tx h = cc
  only_payment account (account_settings a) passphrase tx h = cc

  -- With the builder, the simulator and the local signer as they are, `executeApproved` sends nothing
  -- unless the stored approval is of a payment, and then a transaction that has been simulated: its
  -- envelope is well formed, its sequence number is the account's plus one, its fee and its balance
  -- suffice. An approved trustline is never sent.
  pub approved_payment :
      (cfg : PipelineConfig) (m : Moment) (id : String) (by : Option String)
      (s : Pipeline F S.Transaction)
      → let after = (execute_approved F (parts_of F S w) cfg m id by s).0 in
        (after.sent ≡ s.sent)
        ⊎ ((a : ApprovalRecord) × (p : PaymentIntent) × (tx : S.Transaction)
            × (signed : S.Transaction) × (approval_at F id s ≡ some a)
            × (a.intent ≡ payment p)
            × (S.to_xdr tx ≡ none)
            × IsAdmitted F w.numbers w.horizon (S.view tx)
            × (sign_locally S w.sign_with w.signer tx ≡ ok signed)
            × (after.sent ≡ signed ∷ s.sent))
  approved_payment cfg m id by s = elim (execute_approved-sent F (parts_of F S w) cfg m id by s) [
    | inl kept ↦ inl kept
    | inr (a, signed, at, approved, current, undenied, ready, sent, ended) ↦
        let (account, tx, loaded, built, passed, signs, may) = ready in
        let (p, is_payment) = only_payment account a.intent w.signer.network_passphrase tx built in
        let (envelope, admitted) =
          simulate-IsAdmitted F w.numbers w.horizon (S.view tx) (S.to_xdr tx) passed in
        inr (a, p, tx, signed, at, is_payment, envelope, admitted, signs, sent)
  ]
