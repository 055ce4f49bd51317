-- ===== src/Privacy/Tests.antt =====
-- A deletion attestation of src/privacy/attestation.ts, signed and checked.
use j41_sovagent_sdk.Prelude.{
  ℕ, ◌≡◌, refl, Bool, true, [], ◌∷◌, Option, none, some, Str, codes, ◌==◌, str_discrete,
}
use j41_sovagent_sdk.Prelude.Json.{Json, number, other_number, text, object, Fields, lookup, null}
use j41_sovagent_sdk.Privacy.{
  AttestationParams, AttestationTokenUsage, field_invalid, generate_attestation_payload,
  sign_attestation, verify_attestation_format, verify_attestation_signature,
}
use j41_sovagent_sdk.Privacy.Attested.{IsFilled, sign_attestation-passes}

abbrev floor : Json → Option ℕ
floor (number n) = some n
floor _ = none

abbrev finite : Str → Bool
finite s = true

abbrev usage : AttestationTokenUsage
usage = record {
  prompt_tokens = number 10;
  completion_tokens = other_number (codes "-3");
  total_tokens = number 13;
  llm_calls = null;
  extensions = some (
      record {
        estimated_tokens = number 5;
        amount_vrsc = other_number (codes "0.5");
        granted = true;
        granted_tokens = some (number 4);
      }
      ∷ []);
}

abbrev params : AttestationParams
params = record {
  job_id = codes "j";
  container_id = codes "c";
  created_at = codes "t0";
  destroyed_at = codes "t1";
  data_volumes = some (codes "v" ∷ []);
  deletion_method = none;
  attested_by = codes "a@";
  token_usage = some usage;
}

params-IsFilled : IsFilled params
params-IsFilled = record {
  job_id = refl;
  container_id = refl;
  created_at = refl;
  destroyed_at = refl;
  deletion_method = refl;
  attested_by = refl;
}

abbrev canonicalize : Fields → Str
canonicalize fs = codes "{}"

-- A signature is the message after a letter, and verifying looks at the letter.
abbrev sign : Str → Str
sign m = 82 ∷ m

abbrev verify : Str → Str → Option Json → Option Bool
verify m address (some (text (c ∷ s))) = some (c == 82)
verify m address _ = none

abbrev attestation : Fields
attestation = sign_attestation canonicalize sign (generate_attestation_payload floor finite params)

-- The method is missing from an attestation whose method was given as an empty text.
unnamed_method :
    verify_attestation_format (
      object (
        sign_attestation canonicalize sign (
          generate_attestation_payload floor finite (record params { deletion_method = some [] }))))
    ≡ some (field_invalid (codes "deletionMethod"))
unfolding lookup str_discrete
unnamed_method = refl

sign_attestation-passes_example :
    (verify_attestation_format (object attestation) ≡ none)
    × (verify_attestation_signature canonicalize verify attestation (codes "R1") ≡ true)
sign_attestation-passes_example =
    sign_attestation-passes floor finite canonicalize sign verify (codes "R1") params
      params-IsFilled (λ m. refl) (λ m. refl)
