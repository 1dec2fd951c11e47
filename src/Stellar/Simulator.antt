-- ===== src/Stellar/Simulator.antt =====
-- `StellarSimulator` of packages/stellar/src/simulator.ts, with what Horizon answers as a parameter.
pub mod Preconditions
use evergent.Base.{
  ℕ, Bool, true, false, not, List, [], ◌∷◌, Option, none, some, String, if◌then◌else◌, length,
  str_eq, get_or_else,
}
use evergent.Base.Result.{Result, ok, error}
use evergent.Base.Floats.{Floats}
use evergent.Base.Text.{◌<>◌}
use evergent.Shared.{SimulationResult}
use evergent.Stellar.{OperationView, TransactionView, Numbers}

pub record Balance : Type 0 where
  pub asset_type : String
  pub balance : String

pub record HorizonAccount : Type 0 where
  pub sequence : String
  pub balances : List Balance
  pub subentry_count : Option ℕ

-- What the two requests return.
pub record Horizon (F : Floats) : Type 0 where
  pub fetch_base_fee : Result F.Float
  pub account : String → Result HorizonAccount

-- `balances.find((b) => b.asset_type === "native")`
abbrev pub native_balance : List Balance → Option Balance
native_balance [] = none
native_balance (b ∷ rest) = if str_eq b.asset_type "native" then some b else native_balance rest

abbrev pub first_payment : List OperationView → Option String
first_payment [] = none
first_payment (op ∷ rest) = if str_eq op.kind "payment" then some op.amount else first_payment rest

-- `fail`
abbrev pub fail : TransactionView → String → SimulationResult
fail tx message = record {
  success = false;
  fee = tx.fee;
  operations = length tx.operations;
  warnings = [];
  error = some message;
}

abbrev pub passed : TransactionView → List String → SimulationResult
passed tx warnings = record {
  success = true;
  fee = tx.fee;
  operations = length tx.operations;
  warnings = warnings;
  error = none;
}

module _ (F : Floats) (N : Numbers F) where
  -- `paymentAmount`
  abbrev pub payment_amount : TransactionView → F.Float
  payment_amount tx = elim (first_payment tx.operations) [
    | none ↦ N.literal "0"
    | some amount ↦ N.number amount
  ]

  -- `reserveFor`
  abbrev pub reserve_for : HorizonAccount → F.Float
  reserve_for a =
      F.add (N.literal "0.5")
        (N.multiply (N.literal "0.5") (N.of_nat (get_or_else a.subentry_count 0)))

  abbrev pub total_cost : TransactionView → F.Float
  total_cost tx = F.add (payment_amount tx) (N.divide (N.number tx.fee) (N.literal "1e7"))

  abbrev pub available : HorizonAccount → Balance → F.Float
  available a b = F.sub (N.number b.balance) (reserve_for a)

  -- `Number(transaction.sequence) === accountSeq + 1`
  abbrev pub is_next : TransactionView → HorizonAccount → Bool
  is_next tx a = N.is_equal (N.number tx.sequence) (F.add (N.number a.sequence) (N.literal "1"))

  -- The balance precondition.
  abbrev pub check_balance : TransactionView → HorizonAccount → Option Balance → SimulationResult
  check_balance tx a none = passed tx []
  check_balance tx a (some b) =
      if F.lt (available a b) (total_cost tx)
      then fail tx (
          "Insufficient balance: payment "
          <> F.show (payment_amount tx)
          <> " XLM + fee exceeds available "
          <> F.to_fixed 7 (available a b)
          <> " XLM")
      else if F.lt (F.sub (available a b) (total_cost tx)) (N.literal "1")
      then passed tx ("Remaining balance after transaction is under 1 XLM" ∷ [])
      else passed tx []

  -- The sequence, the fee and the balance.
  abbrev pub check_account : TransactionView → F.Float → HorizonAccount → SimulationResult
  check_account tx base_fee a =
      if not (is_next tx a)
      then fail tx (
          "Sequence number mismatch: transaction "
          <> tx.sequence
          <> " is not account sequence "
          <> F.show (N.number a.sequence)
          <> " + 1")
      else if F.lt (N.number tx.fee) base_fee
      then fail tx ("Fee " <> tx.fee <> " stroops is below network base fee " <> F.show base_fee)
      else check_balance tx a (native_balance a.balances)

  abbrev pub with_account : TransactionView → F.Float → Result HorizonAccount → SimulationResult
  with_account tx base_fee (error message) =
      fail tx ("Source account " <> tx.source <> " not found on network: " <> message)
  with_account tx base_fee (ok a) = check_account tx base_fee a

  abbrev pub with_base_fee : Horizon F → TransactionView → Result F.Float → SimulationResult
  with_base_fee h tx (error message) =
      fail tx ("Unable to fetch network base fee from Horizon: " <> message)
  with_base_fee h tx (ok base_fee) = with_account tx base_fee (h.account tx.source)

  abbrev pub with_envelope : Horizon F → TransactionView → Option String → SimulationResult
  with_envelope h tx (some message) = fail tx ("Transaction envelope is invalid: " <> message)
  with_envelope h tx none = with_base_fee h tx h.fetch_base_fee

  -- `simulate`, of a transaction and the error that its envelope gives
  unfoldable pub simulate : Horizon F → TransactionView → Option String → SimulationResult
  simulate h tx problem = with_envelope h tx problem
