-- ===== src/Canonical.antt =====
-- src/crypto/canonical.ts: the signed canonical envelope. The JCS canonicalisation, the size of its
-- UTF-8 bytes, `Date.parse`, the message signer and the message verifier are parameters. Instants are
-- milliseconds from the year 0, the earliest that the format can write.
pub mod Window
pub mod Threshold
pub mod Signed
mod Tests
use j41_sovagent_sdk.Prelude.{
  ℕ, zero, suc, ◌+◌, ◌*◌, Bool, true, false, not, ◌&&◌, ◌||◌, List, [], ◌∷◌, ◌++◌, Option, none,
  some, ltb, leb, length, if◌then◌else◌, ◌==◌, Str, codes, ◌===◌, str_member, str_discrete, any,
}
use j41_sovagent_sdk.Prelude.Maps.{add}
use j41_sovagent_sdk.Prelude.Json.{
  Json, undefined, text, object, number, Fields, no_fields, field, lookup, is_some, all_keys,
  is_text, matches, repeat, is_base58, between, is_digit, is_lower_hex,
}

pub data Action : Type 0 where
  request_access review_api_session review_submit budget_request : Action

abbrev pub action_name : Action → Str
action_name request_access = codes "request-access"
action_name review_api_session = codes "review-api-session"
action_name review_submit = codes "review-submit"
action_name budget_request = codes "budget-request"

abbrev pub action_max_window_ms : Action → ℕ
action_max_window_ms request_access = 5 * 60 * 1000
action_max_window_ms review_api_session = 7 * 24 * 60 * 60 * 1000
action_max_window_ms review_submit = 7 * 24 * 60 * 60 * 1000
action_max_window_ms budget_request = 60 * 60 * 1000

abbrev pub clock_skew_ms : ℕ
clock_skew_ms = 300000

abbrev pub canonical_max_bytes : ℕ
canonical_max_bytes = 8192

abbrev pub suite : Str
suite = codes "verus-signmessage-v1"

-- The codes of `CanonicalErrorCode` that this file throws.
pub data ErrorCode : Type 0 where
  invalid_body canonical_too_large unexpected_field unsupported_version unsupported_suite :
      ErrorCode
  unknown_action expires_before_issued expires_too_far expired issued_in_future : ErrorCode

pub data Check : Type 0 where
  valid : Check
  invalid : ErrorCode → Check

-- The checks of a function in their order: the first that fails throws.
abbrev pub first_failure : List Check → Check
first_failure [] = valid
first_failure (valid ∷ cs) = first_failure cs
first_failure (invalid e ∷ cs) = invalid e

abbrev pub require : Bool → ErrorCode → Check
require b e = if b then valid else invalid e

abbrev pub allowed_top_level_keys : List Str
allowed_top_level_keys =
    codes "version"
    ∷ codes "cryptoSuite"
    ∷ codes "action"
    ∷ codes "buyer"
    ∷ codes "seller"
    ∷ codes "payload"
    ∷ codes "contentHash"
    ∷ codes "nonce"
    ∷ codes "issuedAt"
    ∷ codes "expiresAt"
    ∷ []

abbrev pub required_top_level_keys : List Str
required_top_level_keys =
    codes "version"
    ∷ codes "cryptoSuite"
    ∷ codes "action"
    ∷ codes "buyer"
    ∷ codes "seller"
    ∷ codes "payload"
    ∷ codes "nonce"
    ∷ codes "issuedAt"
    ∷ codes "expiresAt"
    ∷ []

unfoldable pub has_keys : List Str → Fields → Bool
has_keys [] fs = true
has_keys (k ∷ ks) fs = if is_some (lookup k fs) then has_keys ks fs else false

abbrev pub is_i_address : Str → Bool
is_i_address = matches ((λ x. x == b'i') ∷ repeat 33 is_base58 [])

abbrev pub is_nonce : Str → Bool
is_nonce = matches (repeat 32 is_lower_hex [])

abbrev pub is_rfc3339_ms : Str → Bool
is_rfc3339_ms = matches (
    repeat 4 is_digit (
      (λ x. x == b'-')
      ∷ repeat 2 is_digit (
          (λ x. x == b'-')
          ∷ repeat 2 is_digit (
              (λ x. x == b'T')
              ∷ repeat 2 is_digit (
                  (λ x. x == b':')
                  ∷ repeat 2 is_digit (
                      (λ x. x == b':')
                      ∷ repeat 2 is_digit
                          ((λ x. x == b'.') ∷ repeat 3 is_digit ((λ x. x == b'Z') ∷ []))))))))

abbrev pub party_name_ok : Option Json → Bool
party_name_ok none = true
party_name_ok (some undefined) = true
party_name_ok (some (text s)) = true
party_name_ok (some v) = false

-- `validatePartyObject`
unfoldable pub validate_party_object : Option Json → Check
unfolding lookup str_member
validate_party_object (some (object fs)) = first_failure (
    require (all_keys (λ k. str_member k (codes "iaddress" ∷ codes "name" ∷ [])) fs)
      unexpected_field
    ∷ require (is_text is_i_address (lookup (codes "iaddress") fs)) invalid_body
    ∷ require (party_name_ok (lookup (codes "name") fs)) invalid_body
    ∷ [])
validate_party_object _ = invalid invalid_body

abbrev pub is_object : Option Json → Bool
is_object (some (object fs)) = true
is_object _ = false

-- `validateContentHash` where the field is there.
unfoldable pub validate_content_hash : Option Json → Check
unfolding lookup str_member
validate_content_hash none = valid
validate_content_hash (some undefined) = valid
validate_content_hash (some (object fs)) = first_failure (
    require (all_keys (λ k. str_member k (codes "alg" ∷ codes "digest" ∷ [])) fs) unexpected_field
    ∷ require (is_text (λ s. s === codes "sha256") (lookup (codes "alg") fs)) invalid_body
    ∷ require (is_text (matches (repeat 64 is_lower_hex [])) (lookup (codes "digest") fs))
        invalid_body
    ∷ [])
validate_content_hash (some _) = invalid invalid_body

abbrev pub is_one : Option Json → Bool
is_one (some (number n)) = n == 1
is_one _ = false

unfoldable pub find_action : Option Json → Option Action
find_action (some (text s)) =
    if s === action_name request_access
    then some request_access
    else if s === action_name review_api_session
    then some review_api_session
    else if s === action_name review_submit
    then some review_submit
    else if s === action_name budget_request
    then some budget_request
    else none
find_action _ = none

abbrev pub read_text : Option Json → Str
read_text (some (text s)) = s
read_text _ = []

-- `a > b` of numbers, `none` for NaN.
abbrev pub exceeds : Option ℕ → Option ℕ → Bool
exceeds (some a) (some b) = ltb b a
exceeds _ _ = false

abbrev pub plus : Option ℕ → ℕ → Option ℕ
plus none k = none
plus (some n) k = some (n + k)

-- `a <= b`
abbrev pub at_most : Option ℕ → Option ℕ → Bool
at_most (some a) (some b) = leb a b
at_most _ _ = false

-- The window rules. `expiresAtMs - issuedAtMs > actionMax` has its subtraction moved across.
unfoldable pub check_window : Action → (issued expires : Option ℕ) → (now : ℕ) → Check
check_window action issued expires now = first_failure (
    require (not (at_most expires issued)) expires_before_issued
    ∷ require (not (exceeds expires (plus issued (action_max_window_ms action)))) expires_too_far
    ∷ require (not (exceeds (some now) (plus expires clock_skew_ms))) expired
    ∷ require (not (exceeds issued (some (now + clock_skew_ms)))) issued_in_future
    ∷ [])

module _ (parse_date : Str → Option ℕ) where
  -- From the parties on.
  abbrev pub field_checks : Fields → List Check
  field_checks fs =
      let issued = lookup (codes "issuedAt") fs in
      let expires = lookup (codes "expiresAt") fs in
      validate_party_object (lookup (codes "buyer") fs)
      ∷ validate_party_object (lookup (codes "seller") fs)
      ∷ require (is_object (lookup (codes "payload") fs)) invalid_body
      ∷ validate_content_hash (lookup (codes "contentHash") fs)
      ∷ require (is_text is_nonce (lookup (codes "nonce") fs)) invalid_body
      ∷ require (is_text is_rfc3339_ms issued) invalid_body
      ∷ require (is_text is_rfc3339_ms expires) invalid_body
      ∷ []

  abbrev pub window_check : Action → Fields → ℕ → Check
  window_check action fs now =
      check_window action (parse_date (read_text (lookup (codes "issuedAt") fs)))
        (parse_date (read_text (lookup (codes "expiresAt") fs))) now

  abbrev pub check_fields : Option Action → Fields → ℕ → Check
  check_fields none fs now = invalid unknown_action
  check_fields (some action) fs now =
      first_failure (field_checks fs ++ window_check action fs now ∷ [])

  abbrev pub header_checks : Fields → List Check
  header_checks fs =
      require (all_keys (λ k. str_member k allowed_top_level_keys) fs) unexpected_field
      ∷ require (has_keys required_top_level_keys fs) invalid_body
      ∷ require (is_one (lookup (codes "version") fs)) unsupported_version
      ∷ require (is_text (λ s. s === suite) (lookup (codes "cryptoSuite") fs)) unsupported_suite
      ∷ []

  -- `validateEnvelope`
  abbrev pub validate_envelope : Json → (now : ℕ) → Check
  validate_envelope (object fs) now =
      first_failure
        (header_checks fs ++ check_fields (find_action (lookup (codes "action") fs)) fs now ∷ [])
  validate_envelope _ now = invalid invalid_body

pub record Keys : Type 0 where
  pub primary_addresses : List Str
  -- `none` where it is no positive number; a fraction counts as the next whole number.
  pub minimum_signatures : Option ℕ

pub data SignResult {ℓ} (A : Type ℓ) : Type ℓ where
  signed : A → SignResult A
  refused : ErrorCode → SignResult A

abbrev pub threshold_of : Option ℕ → ℕ
threshold_of none = 1
threshold_of (some n) = n

module _ (verify : (message address signature : Str) → Bool) where
  -- A `verifyVerusMessage` that throws is one that fails.
  abbrev pub signs : Str → List Str → Str → Bool
  signs message signatures address = any (verify message address) signatures

  -- The loop over the addresses: the set of those that some signature validates.
  unfoldable pub collect : Str → List Str → ℕ → List Str → List Str → Bool
  collect message signatures threshold matched [] = leb threshold (length matched)
  collect message signatures threshold matched (a ∷ rest) =
      let matched' = if signs message signatures a then add str_discrete a matched else matched in
      let later = collect message signatures threshold matched' rest in
      if leb threshold (length matched') then true else later

  abbrev pub verify_with : Str → List Str → Option Keys → Bool
  verify_with message signatures none = false
  verify_with message signatures (some keys) = elim keys.primary_addresses [
    | [] ↦ false
    | _ ∷ _ ↦
        collect message signatures (threshold_of keys.minimum_signatures) [] keys.primary_addresses
  ]

  abbrev pub check_message : SignResult Str → List Str → Option Keys → SignResult Bool
  check_message (refused e) signatures resolved = refused e
  check_message (signed message) signatures resolved =
      signed (verify_with message signatures resolved)

module _ (canonicalize : Json → Str) (byte_length : Str → ℕ) where
  -- `canonicalBytes`
  abbrev pub canonical_bytes : Json → SignResult Str
  canonical_bytes v =
      if ltb canonical_max_bytes (byte_length (canonicalize v))
      then refused canonical_too_large
      else signed (canonicalize v)

  -- `verifyCanonicalSignatures`, with what `getIdentityKeys` answers for the buyer; `none` throws. The
  -- size of the envelope is tested before the keys are asked for.
  unfoldable pub verify_canonical_signatures :
      (verify : (message address signature : Str) → Bool)
      → Json
      → List Str
      → Option Keys
      → SignResult Bool
  unfolding collect
  verify_canonical_signatures verify v [] resolved = signed false
  verify_canonical_signatures verify v (s ∷ ss) resolved =
      check_message verify (canonical_bytes v) (s ∷ ss) resolved

  -- `signCanonical`; the counter that it logs to never throws.
  unfoldable pub sign_canonical :
      (parse_date : Str → Option ℕ)
      → (sign : Str → Str) → (now : ℕ) → Json
      → SignResult (Json × List Str)
  sign_canonical parse_date sign now v = elim (validate_envelope parse_date v now) [
    | invalid e ↦ refused e
    | valid ↦ elim (canonical_bytes v) [
      | refused e ↦ refused e
      | signed message ↦ signed (v, sign message ∷ [])
    ]
  ]

pub record AccessParams : Type 0 where
  pub buyer_i_address : Str
  pub buyer_name : Option Str
  pub seller_i_address : Str
  pub seller_name : Option Str
  pub ephemeral_pub_key : Str
  pub ttl_seconds : Option ℕ

-- A name that is empty is left out.
abbrev pub party : Str → Option Str → Fields
party address none = field (codes "iaddress") (text address) no_fields
party address (some []) = field (codes "iaddress") (text address) no_fields
party address (some (c ∷ cs)) =
    field (codes "iaddress") (text address) (field (codes "name") (text (c ∷ cs)) no_fields)

abbrev pub ttl_of : Option ℕ → ℕ
ttl_of none = 60
ttl_of (some n) = if ltb n 300 then n else 300

-- `buildRequestAccessEnvelope`, with the clock, the nonce that was drawn and `rfc3339Ms`.
abbrev pub request_access_fields :
    (format : ℕ → Str) → AccessParams → (nonce : Str) → (now : ℕ) → Fields
request_access_fields format p nonce now = field (codes "version") (number 1) (
    field (codes "cryptoSuite") (text suite) (
      field (codes "action") (text (codes "request-access")) (
        field (codes "buyer") (object (party p.buyer_i_address p.buyer_name)) (
          field (codes "seller") (object (party p.seller_i_address p.seller_name)) (
            field (codes "payload")
              (object (field (codes "ephemeralPubKey") (text p.ephemeral_pub_key) no_fields))
              (field (codes "nonce") (text nonce) (
                field (codes "issuedAt") (text (format now)) (
                  field (codes "expiresAt") (text (format (now + ttl_of p.ttl_seconds * 1000)))
                    no_fields))))))))

abbrev pub build_request_access_envelope :
    (format : ℕ → Str) → AccessParams → (nonce : Str) → (now : ℕ) → Json
build_request_access_envelope format p nonce now = object (request_access_fields format p nonce now)
