-- ===== src/Privacy.antt =====
-- src/privacy/attestation.ts: the deletion attestation, how it is built, signed and checked. The numbers
-- of a usage report may be any values; an error message is not kept, only which error it is.
pub mod Attested
mod Tests
use j41_sovagent_sdk.Prelude.{
  ℕ, suc, Bool, true, false, not, ◌&&◌, ◌||◌, List, [], ◌∷◌, Option, none, some, Str, codes,
  if◌then◌else◌, ◌===◌, str_discrete, ite,
}
use j41_sovagent_sdk.Prelude.Json.{
  Json, undefined, null, boolean, number, other_number, text, array, object, Items, no_items, item,
  Fields, no_fields, field, lookup,
}

pub record AttestationExtension : Type 0 where
  pub estimated_tokens : Json
  pub amount_vrsc : Json
  pub granted : Bool
  pub granted_tokens : Option Json

-- `extensions` is none where it is no array.
pub record AttestationTokenUsage : Type 0 where
  pub prompt_tokens : Json
  pub completion_tokens : Json
  pub total_tokens : Json
  pub llm_calls : Json
  pub extensions : Option (List AttestationExtension)

pub record AttestationParams : Type 0 where
  pub job_id : Str
  pub container_id : Str
  pub created_at : Str
  pub destroyed_at : Str
  pub data_volumes : Option (List Str)
  pub deletion_method : Option Str
  pub attested_by : Str
  pub token_usage : Option AttestationTokenUsage

abbrev pub attestation_schema_version : ℕ
attestation_schema_version = 2

abbrev pub default_method : Str
default_method = codes "container-destroy+volume-rm"

abbrev pub text_items : List Str → Items
text_items [] = no_items
text_items (s ∷ ss) = item (text s) (text_items ss)

abbrev pub or_default {ℓ} : {A : Type ℓ} → A → Option A → A
or_default d none = d
or_default d (some a) = a

-- `typeof v === 'number' && Number.isFinite(v) ? v : null`, where `finite` tells of the text of a number.
abbrev pub finite_or_null : (finite : Str → Bool) → Json → Json
finite_or_null finite (number n) = number n
finite_or_null finite (other_number s) = if finite s then other_number s else null
finite_or_null finite _ = null

abbrev pub granted_fields : (floor : Json → Option ℕ) → Option Json → Fields
granted_fields floor none = no_fields
granted_fields floor (some v) =
    field (codes "grantedTokens") (number (or_default 0 (floor v))) no_fields

-- `floor v` is `Math.floor(Number(v))` where that is finite and not negative.
module _ (floor : Json → Option ℕ) (finite : Str → Bool) where
  abbrev pub int : Json → Json
  int v = number (or_default 0 (floor v))

  abbrev pub normalize_extension : AttestationExtension → Json
  normalize_extension e = object (
      field (codes "estimatedTokens") (int e.estimated_tokens) (
        field (codes "amountVrsc") (finite_or_null finite e.amount_vrsc)
          (field (codes "granted") (boolean e.granted) (granted_fields floor e.granted_tokens))))

  abbrev pub extension_items : List AttestationExtension → Items
  extension_items [] = no_items
  extension_items (e ∷ es) = item (normalize_extension e) (extension_items es)

  -- `normalizeTokenUsage`
  abbrev pub normalize_token_usage : AttestationTokenUsage → Json
  normalize_token_usage u = object (
      field (codes "promptTokens") (int u.prompt_tokens) (
        field (codes "completionTokens") (int u.completion_tokens) (
          field (codes "totalTokens") (int u.total_tokens) (
            field (codes "llmCalls") (int u.llm_calls) (
              field (codes "extensions") (array (extension_items (or_default [] u.extensions)))
                no_fields)))))

  abbrev pub usage_fields : Option AttestationTokenUsage → Fields → Fields
  usage_fields none rest = rest
  usage_fields (some u) rest =
      field (codes "schemaVersion") (number attestation_schema_version)
        (field (codes "tokenUsage") (normalize_token_usage u) rest)

  -- `generateAttestationPayload`, followed by further fields.
  abbrev pub payload_with : Fields → AttestationParams → Fields
  payload_with rest p = field (codes "attestedBy") (text p.attested_by) (
      field (codes "containerId") (text p.container_id) (
        field (codes "createdAt") (text p.created_at) (
          field (codes "dataVolumes") (array (text_items (or_default [] p.data_volumes))) (
            field (codes "deletionMethod") (text (or_default default_method p.deletion_method)) (
              field (codes "destroyedAt") (text p.destroyed_at)
                (field (codes "jobId") (text p.job_id) (usage_fields p.token_usage rest)))))))

  abbrev pub generate_attestation_payload : AttestationParams → Fields
  generate_attestation_payload = payload_with no_fields

-- `{ ...payload, signature }` for a payload without one.
abbrev pub with_signature : Str → Fields → Fields
with_signature sig no_fields = field (codes "signature") (text sig) no_fields
with_signature sig (field k v fs) = field k v (with_signature sig fs)

-- `signAttestation` and `signAttestationWith`.
abbrev pub sign_attestation : (canonicalize : Fields → Str) → (sign : Str → Str) → Fields → Fields
sign_attestation canonicalize sign payload = with_signature (sign (canonicalize payload)) payload

-- `const { signature, ...payload } = attestation`
unfoldable pub without_signature : Fields → Fields
without_signature no_fields = no_fields
without_signature (field k v fs) =
    ite (str_discrete k (codes "signature")) (without_signature fs)
      (field k v (without_signature fs))

-- `verifyAttestationSignature`, with what verifying answers, or none if it throws.
abbrev pub answer_or_false : Option Bool → Bool
answer_or_false none = false
answer_or_false (some b) = b

abbrev pub verify_attestation_signature :
    (canonicalize : Fields → Str)
    → (verify : Str → Str → Option Json → Option Bool) → Fields
    → Str
    → Bool
verify_attestation_signature canonicalize verify a address =
    answer_or_false
      (verify (canonicalize (without_signature a)) address (lookup (codes "signature") a))

pub data FormatError : Type 0 where
  not_object volumes_not_array volume_not_text usage_not_object extensions_not_array : FormatError
  extension_not_object estimated_tokens_invalid granted_invalid amount_invalid
        schema_version_invalid :
      FormatError
  field_invalid usage_invalid : (name : Str) → FormatError

abbrev pub not_empty : Str → Bool
not_empty [] = false
not_empty (c ∷ cs) = true

abbrev pub is_filled : Option Json → Bool
is_filled (some (text s)) = not_empty s
is_filled _ = false

abbrev pub is_natural : Option Json → Bool
is_natural (some (number n)) = true
is_natural _ = false

-- The next check, if there is no error yet.
abbrev pub then_check : Option FormatError → Option FormatError → Option FormatError
then_check none next = next
then_check (some e) next = some e

abbrev pub required_strings : List Str
required_strings =
    codes "jobId"
    ∷ codes "containerId"
    ∷ codes "createdAt"
    ∷ codes "destroyedAt"
    ∷ codes "deletionMethod"
    ∷ codes "attestedBy"
    ∷ codes "signature"
    ∷ []

abbrev pub check_strings : List Str → Fields → Option FormatError
check_strings [] a = none
check_strings (k ∷ ks) a =
    if is_filled (lookup k a) then check_strings ks a else some (field_invalid k)

abbrev pub check_volume_items : Items → Option FormatError
check_volume_items no_items = none
check_volume_items (item (text s) vs) = check_volume_items vs
check_volume_items (item _ vs) = some volume_not_text

abbrev pub check_volumes : Option Json → Option FormatError
check_volumes (some (array vs)) = check_volume_items vs
check_volumes _ = some volumes_not_array

abbrev pub is_boolean : Option Json → Bool
is_boolean (some (boolean b)) = true
is_boolean _ = false

abbrev pub is_number_or_null : Option Json → Bool
is_number_or_null (some null) = true
is_number_or_null (some (number n)) = true
is_number_or_null (some (other_number s)) = true
is_number_or_null _ = false

abbrev pub check_extension : Fields → Option FormatError
check_extension e =
    if not (is_natural (lookup (codes "estimatedTokens") e))
    then some estimated_tokens_invalid
    else if not (is_boolean (lookup (codes "granted") e))
    then some granted_invalid
    else if not (is_number_or_null (lookup (codes "amountVrsc") e))
    then some amount_invalid
    else none

-- An array is an object without these properties.
abbrev pub check_extensions : Items → Option FormatError
check_extensions no_items = none
check_extensions (item (object e) es) = then_check (check_extension e) (check_extensions es)
check_extensions (item (array vs) es) = some estimated_tokens_invalid
check_extensions (item _ es) = some extension_not_object

abbrev pub check_extension_list : Option Json → Option FormatError
check_extension_list (some (array es)) = check_extensions es
check_extension_list _ = some extensions_not_array

abbrev pub counts : List Str
counts =
    codes "promptTokens" ∷ codes "completionTokens" ∷ codes "totalTokens" ∷ codes "llmCalls" ∷ []

abbrev pub check_counts : List Str → Fields → Option FormatError
check_counts [] u = none
check_counts (k ∷ ks) u =
    if is_natural (lookup k u) then check_counts ks u else some (usage_invalid k)

abbrev pub check_schema_version : Option Json → Option FormatError
check_schema_version none = none
check_schema_version (some undefined) = none
check_schema_version (some (number n)) = none
check_schema_version (some (other_number s)) = none
check_schema_version (some _) = some schema_version_invalid

abbrev pub check_usage_object : Fields → Option Json → Option FormatError
check_usage_object u version = then_check (check_counts counts u) (
    then_check (check_extension_list (lookup (codes "extensions") u))
      (check_schema_version version))

abbrev pub check_usage : Option Json → Option Json → Option FormatError
check_usage none version = none
check_usage (some undefined) version = none
check_usage (some (object u)) version = check_usage_object u version
check_usage (some _) version = some usage_not_object

-- `verifyAttestationFormat`; none if it returns.
abbrev pub verify_attestation_format : Json → Option FormatError
verify_attestation_format (object a) = then_check (check_strings required_strings a) (
    then_check (check_volumes (lookup (codes "dataVolumes") a))
      (check_usage (lookup (codes "tokenUsage") a) (lookup (codes "schemaVersion") a)))
verify_attestation_format (array vs) = some (field_invalid (codes "jobId"))
verify_attestation_format _ = some not_object
