-- ===== src/Network/Gate.antt =====
-- What `StellarSubmitter.submit` lets through.
use evergent.Base.{
  ℕ, zero, suc, true, ◌&&◌, List, ◌∷◌, String, ◌≡◌, ◌≢◌, refl, ◌⊎◌, inl, inr, str_eq, Bool-cases,
  and-eq-true, arith, eq_iff,
}
use evergent.Base.Result.{Result, error, Result-cases}
use evergent.Base.Text.{strip_slashes}
use evergent.Network.{
  NetworkValidation, testnet, unknown, validate_stellar_network, testnet_horizon_url,
  testnet_passphrase, mainnet_horizon_url, mainnet_passphrase, is_live_submit_enabled,
  SubmitterConfig, submit,
}

-- The Horizon URL, without its final slashes, and the passphrase are those of the test network.
pub IsTestnet : String → String → Type 0
IsTestnet horizon_url passphrase =
    (strip_slashes horizon_url ≡ testnet_horizon_url) × (passphrase ≡ testnet_passphrase)

pub validate-IsTestnet :
    (horizon_url passphrase : String)
    → validate_stellar_network horizon_url passphrase ≡ testnet
    → IsTestnet horizon_url passphrase
unfolding validate_stellar_network IsTestnet
validate-IsTestnet url p h =
    let at_home = str_eq (strip_slashes url) testnet_horizon_url in
    let abroad = str_eq (strip_slashes url) mainnet_horizon_url in
    elim (Bool-cases (at_home && str_eq p testnet_passphrase)) [
      | inl both ↦ let (u, q) = and-eq-true _ _ both in ((eq_iff _ _).0 u, (eq_iff _ _).0 q)
      | inr other ↦ elim (Bool-cases (abroad && str_eq p mainnet_passphrase)) [
        | inl is_so ↦ let no_way = (rw (other, is_so) at h) in cc
        | inr x ↦ elim (Bool-cases (at_home && str_eq p mainnet_passphrase)) [
          | inl is_so ↦ let no_way = (rw (other, x, is_so) at h) in cc
          | inr y ↦ elim (Bool-cases (abroad && str_eq p testnet_passphrase)) [
            | inl is_so ↦ let no_way = (rw (other, x, y, is_so) at h) in cc
            | inr z ↦ let no_way = (rw (other, x, y, z) at h) in cc
          ]
        ]
      ]
    ]

NetworkValidation-cases :
    (v : NetworkValidation) → (v ≡ testnet) ⊎ ((reason : String) × (v ≡ unknown reason))
NetworkValidation-cases testnet = inl refl
NetworkValidation-cases (unknown reason) = inr (reason, refl)

ℕ-cases : (n : ℕ) → (n ≡ 0) ⊎ ((k : ℕ) × (n ≡ suc k))
ℕ-cases zero = inl refl
ℕ-cases (suc n) = inr (n, refl)

-- Both gates are open, and the transaction is signed.
pub MaySend : SubmitterConfig → String → ℕ → Type 0
MaySend cfg passphrase signatures =
    IsTestnet cfg.horizon_url passphrase
    × (is_live_submit_enabled cfg.live_submit ≡ true)
    × (signatures ≢ 0)

module _ {ℓ} {Signed : Type ℓ} where
  pub submit-cases :
      (cfg : SubmitterConfig) (signatures : Signed → ℕ) (send : Signed → Result String)
      (passphrase : String) (tx : Signed) (sent : List Signed)
      → (((submit cfg signatures send passphrase tx sent).0 ≡ sent)
          × ((m : String) × ((submit cfg signatures send passphrase tx sent).1 ≡ error m)))
        ⊎ (MaySend cfg passphrase (signatures tx)
            × ((submit cfg signatures send passphrase tx sent).0 ≡ tx ∷ sent))
  unfolding submit MaySend
  submit-cases cfg signatures send passphrase tx sent =
      elim (NetworkValidation-cases (validate_stellar_network cfg.horizon_url passphrase)) [
        | inr (reason, e) ↦ inl (rw (e, submit) (refl, (_, refl)))
        | inl e ↦ elim (Bool-cases (is_live_submit_enabled cfg.live_submit)) [
          | inr off ↦ inl (rw (e, submit, off) (refl, (_, refl)))
          | inl on ↦ elim (ℕ-cases (signatures tx)) [
            | inl unsigned ↦ inl (rw (e, submit, on, unsigned) (refl, (_, refl)))
            | inr (k, signed) ↦ elim (Result-cases (send tx)) [
              | inl (hash, sends) ↦ inr (
                (validate-IsTestnet _ _ e, on, rw signed (λ e. omega arith)),
                rw (e, submit, on, signed, sends) refl,
              )
              | inr (m, fails) ↦ inr (
                (validate-IsTestnet _ _ e, on, rw signed (λ e. omega arith)),
                rw (e, submit, on, signed, fails) refl,
              )
            ]
          ]
        ]
      ]
