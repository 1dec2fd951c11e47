-- ===== src/Tests/StellarTests.antt =====
-- The memo, the simulator, and the pipeline with its real parts on a small SDK.
use evergent.Base.{
  inl, ℕ, ◌*◌, ◌≤◌, ◌≡◌, refl, ◌⊎◌, false, [], ◌∷◌, none, some, String, Option, length, take, All,
  ◌==◌, Bool, arith,
}
use evergent.Base.Parse.{Codes}
use evergent.Base.Result.{ok}
use evergent.Shared.{PaymentIntent, payment}
use evergent.Approval.{ApprovalRecord}
use evergent.Pipeline.{Pipeline}
use evergent.Pipeline.Steps.{approval_at}
use evergent.Pipeline.Approved.Admission.{execute_approved}
use evergent.Stellar.{Sdk, Numbers, OperationView, TransactionView}
use evergent.Stellar.Local.{Surroundings, parts_of, sign_locally}
use evergent.Stellar.Memo.{truncate_to_memo, encode}
use evergent.Stellar.Memo.Cut.{IsScalar, truncate_to_memo_lem}
use evergent.Stellar.Simulator.{Horizon, simulate}
use evergent.Stellar.Simulator.Preconditions.{IsAdmitted, simulate-IsAdmitted}
use evergent.Stellar.Trustlines.{approved_payment}
use evergent.Tests.PipelineTests.{live, noon, stores}
use evergent.Tests.Samples.{whole, parse_whole}
use evergent.Tests.Utf8.{decode, decode-encode}

-- Letters of two bytes and one of a single byte, so that byte 28 is within the fifteenth letter.
abbrev umlauts : Codes
umlauts =
    246 ∷ 246 ∷ 246 ∷ 246 ∷ 246 ∷ 246 ∷ 246 ∷ 97 ∷ 246 ∷ 246 ∷ 246 ∷ 246 ∷ 246 ∷ 246 ∷ 246 ∷ 246
    ∷ []

umlauts-All : All IsScalar umlauts
umlauts-All =
    let o : IsScalar 246 = inl (omega arith) in
    let a : IsScalar 97 = inl (omega arith) in
    (o, (o, (o, (o, (o, (o, (o, (a, (o, (o, (o, (o, (o, (o, (o, (o, tt))))))))))))))))

truncate_to_memo_lem_example :
    (k : ℕ) × (truncate_to_memo decode umlauts ≡ take k umlauts)
    × (length (encode (truncate_to_memo decode umlauts)) ≤ 28)
truncate_to_memo_lem_example =
    truncate_to_memo_lem decode decode-encode umlauts umlauts-All (λ e. omega arith)

memo_test : length (truncate_to_memo decode umlauts) ≡ 14
unfolding truncate_to_memo
memo_test = refl

abbrev times : Option ℕ → Option ℕ → Option ℕ
times (some a) (some b) = some (a * b)
times _ _ = none

abbrev same : Option ℕ → Option ℕ → Bool
same (some a) (some b) = a == b
same _ _ = false

abbrev numbers : Numbers whole
numbers = record {
  number = parse_whole;
  literal = parse_whole;
  of_nat = some;
  multiply = times;
  divide = λ a b. some 0;
  is_equal = same;
}

abbrev horizon : Horizon whole
horizon = record {
  fetch_base_fee = ok (some 100);
  account = λ id. ok (record {
    sequence = "7";
    balances = record { asset_type = "native"; balance = "900" } ∷ [];
    subentry_count = none;
  });
}

abbrev rent_transaction : TransactionView
rent_transaction = record {
  fee = "100000";
  sequence = "8";
  source = "GA";
  operations = record { kind = "payment"; amount = "10" } ∷ [];
  network_passphrase = "Test SDF Network ; September 2015";
}

simulate-IsAdmitted_example :
    (◌≡◌ {A = Option String} none none) × IsAdmitted whole numbers horizon rent_transaction
unfolding simulate parse_whole
simulate-IsAdmitted_example = simulate-IsAdmitted whole numbers horizon rent_transaction none refl

-- An SDK whose transactions are their views.
abbrev sdk : Sdk
sdk = record {
  Account = String;
  Asset = String;
  Operation = OperationView;
  Transaction = TransactionView;
  native = "XLM";
  new_asset = λ code issuer. ok code;
  payment_operation = λ to asset amount. ok (record { kind = "payment"; amount = amount });
  change_trust = λ asset limit. ok (record { kind = "changeTrust"; amount = "0" });
  build = λ account passphrase fee memo operation timeout. ok (record {
    fee = fee;
    sequence = "8";
    source = account;
    operations = operation ∷ [];
    network_passphrase = passphrase;
  });
  view = λ tx. tx;
  to_xdr = λ tx. none;
}

abbrev world : Surroundings whole sdk String
world = record {
  numbers = numbers;
  horizon = horizon;
  load_account = ok "GA";
  memo_text = λ s. s;
  signer = record { keypair = "S"; network_passphrase = "Test SDF Network ; September 2015" };
  sign_with = λ tx k. tx;
  hash = λ tx. "h";
  signatures = λ tx. 1;
  submit_transaction = λ tx. ok "h";
}

abbrev before : Pipeline whole TransactionView
before = record { activities = stores.activities; approvals = stores.approvals; sent = [] }

approved_payment_example :
    let after = (execute_approved whole (parts_of whole sdk world) live noon "p1" none before).0 in
    (after.sent ≡ [])
    ⊎ ((a : ApprovalRecord) × (p : PaymentIntent) × (tx : TransactionView)
        × (signed : TransactionView) × (approval_at whole "p1" before ≡ some a)
        × (a.intent ≡ payment p)
        × (◌≡◌ {A = Option String} none none)
        × IsAdmitted whole numbers horizon tx
        × (sign_locally sdk world.sign_with world.signer tx ≡ ok signed)
        × (after.sent ≡ signed ∷ []))
approved_payment_example = approved_payment whole sdk world live noon "p1" none before
