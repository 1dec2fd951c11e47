-- ===== src/Stellar/Local.antt =====
-- `TestnetLocalSigner` of packages/stellar/src/testnet-local-signer.ts, and the pipeline's parts made of
-- the builder, the simulator and this signer. Keys and signatures are parameters.
use evergent.Base.{ℕ, not, Option, none, some, String, if◌then◌else◌, str_eq}
use evergent.Base.Result.{Result, ok, error}
use evergent.Base.Floats.{Floats}
use evergent.Base.Text.{◌<>◌, is_given, trim_text}
use evergent.Pipeline.{Parts}
use evergent.Stellar.{Sdk, Numbers}
use evergent.Stellar.Builder.{build_payment, build_trustline}
use evergent.Stellar.Simulator.{Horizon, simulate}

pub record LocalSigner (Keypair : Type 0) : Type 0 where
  pub keypair : Keypair
  pub network_passphrase : String

abbrev pub not_set : String → String
not_set name =
    "TestnetLocalSigner: environment variable " <> name
    <> " is not set. Set it in your local .env (never commit it)."

-- The constructor, with the environment variable's name and value; `Keypair.fromSecret` may throw.
unfoldable pub new_signer :
    {Keypair : Type 0}
    → (String → Result Keypair)
    → String
    → String
    → Option String
    → Result (LocalSigner Keypair)
unfolding trim_text
new_signer from_secret passphrase name secret = elim secret [
  | none ↦ error (not_set name)
  | some s ↦
      if not (is_given (some s)) then error (not_set name) else elim (from_secret (trim_text s)) [
        | error message ↦ error message
        | ok keypair ↦ ok (record { keypair = keypair; network_passphrase = passphrase })
      ]
]

module _ (S : Sdk) {Keypair : Type 0} (sign_with : S.Transaction → Keypair → S.Transaction) where
  -- `sign`
  unfoldable pub sign_locally : LocalSigner Keypair → S.Transaction → Result S.Transaction
  sign_locally signer tx =
      if not (str_eq (S.view tx).network_passphrase signer.network_passphrase)
      then error
          "TestnetLocalSigner: transaction network passphrase does not match signer passphrase"
      else ok (sign_with tx signer.keypair)

-- What the pipeline's parts need beside the SDK: the account that is loaded, and Horizon's answers.
pub record Surroundings (F : Floats) (S : Sdk) (Keypair : Type 0) : Type 0 where
  pub numbers : Numbers F
  pub horizon : Horizon F
  pub load_account : Result S.Account
  pub memo_text : String → String
  pub signer : LocalSigner Keypair
  pub sign_with : S.Transaction → Keypair → S.Transaction
  pub hash : S.Transaction → String
  pub signatures : S.Transaction → ℕ
  pub submit_transaction : S.Transaction → Result String

-- The parts as packages/stellar/src/pipeline.ts makes them.
abbrev pub parts_of :
    (F : Floats) (S : Sdk) {Keypair : Type 0} → Surroundings F S Keypair → Parts S.Transaction
parts_of F S w = record {
  Account = S.Account;
  Tx = S.Transaction;
  network_passphrase = w.signer.network_passphrase;
  load_account = w.load_account;
  build_trustline = build_trustline F S w.memo_text;
  build_payment = build_payment F S w.memo_text;
  simulate = λ tx. simulate F w.numbers w.horizon (S.view tx) (S.to_xdr tx);
  sign = sign_locally S w.sign_with w.signer;
  hash = w.hash;
  signatures = w.signatures;
  submit_transaction = w.submit_transaction;
}
