-- ===== src/Network.antt =====
-- packages/stellar/src/network-guard.ts and packages/stellar/src/submitter.ts: the gate before a
-- transaction is given to the network. Horizon's `submitTransaction` is a parameter; each call of
-- it is noted in the list of what was sent.
pub mod Gate
use evergent.Base.{
  ℕ, zero, suc, Bool, true, false, ◌&&◌, List, [], ◌∷◌, Option, none, some, String, if◌then◌else◌,
  str_eq, get_or_else,
}
use evergent.Base.Result.{Result, ok, error}
use evergent.Base.Text.{◌<>◌, strip_slashes}

abbrev pub testnet_horizon_url : String
testnet_horizon_url = "https://horizon-testnet.stellar.org"

abbrev pub testnet_passphrase : String
testnet_passphrase = "Test SDF Network ; September 2015"

abbrev pub mainnet_horizon_url : String
mainnet_horizon_url = "https://horizon.stellar.org"

abbrev pub mainnet_passphrase : String
mainnet_passphrase = "Public Global Stellar Network ; September 2015"

pub data NetworkValidation : Type 0 where
  testnet : NetworkValidation
  unknown : String → NetworkValidation

-- `validateStellarNetwork`
unfoldable pub validate_stellar_network : String → String → NetworkValidation
unfolding strip_slashes
validate_stellar_network horizon_url passphrase =
    let url = strip_slashes horizon_url in
    if str_eq url testnet_horizon_url && str_eq passphrase testnet_passphrase
    then testnet
    else if str_eq url mainnet_horizon_url && str_eq passphrase mainnet_passphrase
    then unknown "Mainnet execution is not supported. Only Stellar Testnet is allowed."
    else if str_eq url testnet_horizon_url && str_eq passphrase mainnet_passphrase
    then unknown "Network configuration mismatch: Testnet Horizon URL with Mainnet passphrase."
    else if str_eq url mainnet_horizon_url && str_eq passphrase testnet_passphrase
    then unknown "Network configuration mismatch: Mainnet Horizon URL with Testnet passphrase."
    else unknown (
        "Unknown or unsupported Horizon URL: " <> url <> ". Only Stellar Testnet ("
        <> testnet_horizon_url <> ") is supported.")

-- `process.env.LIVE_SUBMIT === "1"`
abbrev pub is_live_submit_enabled : Option String → Bool
is_live_submit_enabled none = false
is_live_submit_enabled (some value) = str_eq value "1"

-- What the submitter reads from its surroundings.
pub record SubmitterConfig : Type 0 where
  pub horizon_url : String
  pub live_submit : Option String

module _ {ℓ} {Signed : Type ℓ} where
  -- `StellarSubmitter.submit`: what is sent, and the hash or the error thrown.
  unfoldable pub submit :
      SubmitterConfig
      → (Signed → ℕ)
      → (Signed → Result String)
      → String
      → Signed
      → List Signed
      → List Signed × Result String
  unfolding validate_stellar_network
  submit cfg signatures submit_transaction passphrase tx sent =
      elim (validate_stellar_network cfg.horizon_url passphrase) [
        | unknown reason ↦ (sent, error ("StellarSubmitter: network validation failed: " <> reason))
        | testnet ↦
            if is_live_submit_enabled cfg.live_submit
            then elim (signatures tx) [
              | zero ↦ (
                sent,
                error
                    "StellarSubmitter: transaction has no signatures — signing required before submission",
              )
              | suc n ↦ elim (submit_transaction tx) [
                | ok hash ↦ (tx ∷ sent, ok hash)
                | error detail ↦
                    (tx ∷ sent, error ("StellarSubmitter: submission failed: " <> detail))
              ]
            ]
            else (
              sent,
              error
                  "StellarSubmitter: live submission is disabled. Set LIVE_SUBMIT=1 to enable real Testnet submission.",
            )
      ]
