-- ===== src/Stellar.antt =====
-- What packages/stellar/src uses of the Stellar SDK: the calls of transaction-builder.ts, simulator.ts
-- and testnet-local-signer.ts, as an interface, and arithmetic on JavaScript's numbers beyond that of
-- the policy.
pub mod Memo
pub mod Builder
pub mod Simulator
pub mod Local
pub mod Trustlines
use evergent.Base.{ℕ, Bool, List, Option, String}
use evergent.Base.Result.{Result}
use evergent.Base.Floats.{Floats}

-- An operation as the simulator reads it: its type and the amount of a payment.
pub record OperationView : Type 0 where
  pub kind : String
  pub amount : String

-- The fields of a transaction.
pub record TransactionView : Type 0 where
  pub fee : String
  pub sequence : String
  pub source : String
  pub operations : List OperationView
  pub network_passphrase : String

pub record Sdk : Type 1 where
  pub Account : Type 0
  pub Asset : Type 0
  pub Operation : Type 0
  pub Transaction : Type 0
  pub native : Asset
  -- `new Asset(code, issuer)`, which checks both
  pub new_asset : String → String → Result Asset
  -- `Operation.payment({ destination, asset, amount })`
  pub payment_operation : String → Asset → String → Result Operation
  -- `Operation.changeTrust({ asset, limit })`
  pub change_trust : Asset → Option String → Result Operation
  -- A builder of a fee for a passphrase, with a memo, an operation and a timeout
  pub build : Account → String → String → String → Operation → ℕ → Result Transaction
  pub view : Transaction → TransactionView
  -- The error of `transaction.toEnvelope().toXDR("raw")`
  pub to_xdr : Transaction → Option String

pub record Numbers (F : Floats) : Type 0 where
  -- `Number(s)`, and a literal
  pub number : String → F.Float
  pub literal : String → F.Float
  pub of_nat : ℕ → F.Float
  pub multiply : F.Float → F.Float → F.Float
  pub divide : F.Float → F.Float → F.Float
  pub is_equal : F.Float → F.Float → Bool
