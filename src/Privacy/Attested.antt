-- ===== src/Privacy/Attested.antt =====
-- The attestations of src/privacy/attestation.ts that an agent signs pass the checks of a buyer.
use j41_sovagent_sdk.Prelude.{
  ℕ, ◌≡◌, refl, Bool, true, List, [], ◌∷◌, Option, none, some, Str, codes, str_discrete, Bool-cases,
  inl, inr,
}
use j41_sovagent_sdk.Prelude.Json.{
  Json, text, number, object, array, Fields, lookup, null, other_number, undefined, boolean,
}
use j41_sovagent_sdk.Privacy.{
  AttestationExtension, AttestationTokenUsage, AttestationParams, default_method, text_items,
  or_default, finite_or_null, extension_items, normalize_token_usage, generate_attestation_payload,
  with_signature, sign_attestation, without_signature, verify_attestation_signature, not_empty,
  check_volume_items, check_extensions, check_usage, is_number_or_null, attestation_schema_version,
  verify_attestation_format,
}

-- The texts that an agent attests are there.
pub record IsFilled (p : AttestationParams) : Type 0 where
  pub job_id : not_empty p.job_id ≡ true
  pub container_id : not_empty p.container_id ≡ true
  pub created_at : not_empty p.created_at ≡ true
  pub destroyed_at : not_empty p.destroyed_at ≡ true
  pub deletion_method : not_empty (or_default default_method p.deletion_method) ≡ true
  pub attested_by : not_empty p.attested_by ≡ true

volumes_lem : (ss : List Str) → check_volume_items (text_items ss) ≡ none
volumes_lem [] = refl
volumes_lem (s ∷ ss) = volumes_lem ss

amount_lem :
    (finite : Str → Bool) (v : Json) → is_number_or_null (some (finite_or_null finite v)) ≡ true
amount_lem finite undefined = refl
amount_lem finite null = refl
amount_lem finite (boolean b) = refl
amount_lem finite (number n) = refl
amount_lem finite (text s) = refl
amount_lem finite (array vs) = refl
amount_lem finite (object fs) = refl
amount_lem finite (other_number s) = elim (Bool-cases (finite s)) [
  | inl e ↦ rw e refl
  | inr e ↦ rw e refl
]

module _ (floor : Json → Option ℕ) (finite : Str → Bool) where
  extensions_lem :
      (es : List AttestationExtension) → check_extensions (extension_items floor finite es) ≡ none
  unfolding lookup str_discrete
  extensions_lem [] = refl
  extensions_lem (e ∷ es) = rw (amount_lem finite e.amount_vrsc) (extensions_lem es)

  usage_lem :
      (u : AttestationTokenUsage)
      → check_usage
          (some (normalize_token_usage floor finite u))
          (some (number attestation_schema_version))
        ≡ none
  unfolding lookup str_discrete
  usage_lem u = rw (extensions_lem (or_default [] u.extensions)) refl

  module _ (canonicalize : Fields → Str) (sign : Str → Str) where
    abbrev signed : AttestationParams → Fields
    signed p = sign_attestation canonicalize sign (generate_attestation_payload floor finite p)

    format_lem :
        (p : AttestationParams) (o : Option AttestationTokenUsage)
        → p.token_usage ≡ o
        → IsFilled p
        → ((m : Str) → not_empty (sign m) ≡ true)
        → verify_attestation_format (object (signed p)) ≡ none
    unfolding lookup str_discrete
    format_lem p none e f h =
        rw
          (
            e,
            f.job_id,
            f.container_id,
            f.created_at,
            f.destroyed_at,
            f.deletion_method,
            f.attested_by,
            h (canonicalize (generate_attestation_payload floor finite p)),
            volumes_lem (or_default [] p.data_volumes),
          )
          refl
    format_lem p (some u) e f h =
        rw
          (
            e,
            f.job_id,
            f.container_id,
            f.created_at,
            f.destroyed_at,
            f.deletion_method,
            f.attested_by,
            h (canonicalize (generate_attestation_payload floor finite p)),
            volumes_lem (or_default [] p.data_volumes),
          )
          (usage_lem u)

    without_lem :
        (p : AttestationParams) (o : Option AttestationTokenUsage)
        → p.token_usage ≡ o
        → without_signature (signed p) ≡ generate_attestation_payload floor finite p
    unfolding without_signature str_discrete
    without_lem p none e = rw e refl
    without_lem p (some u) e = rw e refl

    signature_lem :
        (p : AttestationParams) (o : Option AttestationTokenUsage) (sig : Str)
        → p.token_usage ≡ o
        → lookup
            (codes "signature")
            (with_signature sig (generate_attestation_payload floor finite p))
          ≡ some (text sig)
    unfolding lookup str_discrete
    signature_lem p none sig e = rw e refl
    signature_lem p (some u) sig e = rw e refl

    -- What an agent signs, with or without a usage report and whatever numbers that holds, passes both checks
    -- of a buyer, if the texts that it attests and its signatures are not empty and the signatures verify.
    pub sign_attestation-passes :
        (verify : Str → Str → Option Json → Option Bool) (address : Str) (p : AttestationParams)
        → IsFilled p
        → ((m : Str) → not_empty (sign m) ≡ true)
        → ((m : Str) → verify m address (some (text (sign m))) ≡ some true)
        → (verify_attestation_format (
              object
                (sign_attestation canonicalize sign (generate_attestation_payload floor finite p)))
            ≡ none)
          × (verify_attestation_signature canonicalize verify
                (sign_attestation canonicalize sign (generate_attestation_payload floor finite p))
                address
              ≡ true)
    sign_attestation-passes verify address p f h v =
        let m = canonicalize (generate_attestation_payload floor finite p) in
        (
          format_lem p p.token_usage refl f h,
          rw (without_lem p p.token_usage refl, signature_lem p p.token_usage (sign m) refl, v m)
              refl,
        )
