-- ===== src/Signing/Tests.antt =====
-- Messages of src/signing/messages.ts, and the theorems about them at concrete inputs.
use j41_sovagent_sdk.Prelude.{ℕ, zero, suc, ◌≡◌, refl, [], ◌∷◌, Str, codes}
use j41_sovagent_sdk.Signing.{
  AcceptMessageParams, DepositReportParams, build_deposit_report_message,
}
use j41_sovagent_sdk.Signing.Plain.{IsFree}
use j41_sovagent_sdk.Signing.Kind.{accept, kind, text-kind}

-- A number as so many strokes.
abbrev strokes : ℕ → Str
strokes zero = []
strokes (suc n) = b'1' ∷ strokes n

strokes-unspaced : (n : ℕ) → IsFree b' ' (strokes n)
strokes-unspaced zero = refl
strokes-unspaced (suc n) = strokes-unspaced n

abbrev report : DepositReportParams
report = record {
  buyer_verus_id = codes "alice@";
  seller_verus_id = codes "bob@";
  txid = codes "ab";
  amount = 2;
  nonce = codes "n";
  timestamp = 3;
}

report_text :
    build_deposit_report_message strokes report
    ≡ codes
        "J41-DEPOSIT-REPORT|Buyer:alice@|Seller:bob@|Txid:ab|Amt:11|Nonce:n|Ts:111|I attest I sent this deposit and claim its credit."
unfolding build_deposit_report_message
report_text = refl

abbrev accepted : AcceptMessageParams
accepted = record {
  job_hash = codes "ff";
  buyer_verus_id = codes "alice@";
  amount = 2;
  currency = codes "VRSC";
  timestamp = 3;
}

text-kind_example : kind (accept accepted) ≡ kind (accept accepted)
text-kind_example = text-kind strokes (accept accepted) (accept accepted) refl
