-- ===== src/Canonical/Tests.antt =====
-- Envelopes of src/crypto/canonical.ts.
use j41_sovagent_sdk.Prelude.{
  ℕ, ◌==◌, ◌≡◌, refl, true, false, Bool, [], ◌∷◌, arith, Option, none, some, Str, codes, ◌===◌,
  if◌then◌else◌, str_discrete, str_member,
}
use j41_sovagent_sdk.Prelude.Maps.{has}
use j41_sovagent_sdk.Prelude.Json.{Json, object, Fields, lookup}
use j41_sovagent_sdk.Canonical.{
  valid, invalid, expired, signed, AccessParams, validate_envelope, request_access_fields,
  build_request_access_envelope, Keys, verify_canonical_signatures, sign_canonical,
  validate_party_object, validate_content_hash, find_action, has_keys, check_window,
}
use j41_sovagent_sdk.Canonical.Window.{IsAccepted, validate_envelope-IsAccepted}
use j41_sovagent_sdk.Canonical.Threshold.{verify_canonical_signatures_lem}
use j41_sovagent_sdk.Canonical.Signed.{build_request_access_envelope-valid, sign_canonical-verifies}

abbrev first_date : Str
first_date = codes "2026-01-02T03:04:05.678Z"

abbrev second_date : Str
second_date = codes "2026-01-02T03:05:05.678Z"

-- The two dates, a minute apart.
abbrev format : ℕ → Str
format n = if n == 1000 then first_date else second_date

abbrev parse_date : Str → Option ℕ
parse_date s =
    if s === first_date then some 1000 else if s === second_date then some 61000 else none

abbrev buyer : Str
buyer = codes "i5w5MuNik5NtLcYmNzcvaoixooEebB6MGV"

abbrev nonce : Str
nonce = codes "0123456789abcdef0123456789abcdef"

abbrev params : AccessParams
params = record {
  buyer_i_address = buyer;
  buyer_name = some (codes "alice@");
  seller_i_address = buyer;
  seller_name = none;
  ephemeral_pub_key = codes "02";
  ttl_seconds = none;
}

abbrev envelope : Json
envelope = build_request_access_envelope format params nonce 1000

envelope_valid : validate_envelope parse_date envelope 1000 ≡ valid
unfolding str_discrete
envelope_valid =
    build_request_access_envelope-valid parse_date format params nonce 1000 refl refl refl
      (omega arith) refl refl refl refl

late : validate_envelope parse_date envelope 361001 ≡ invalid expired
unfolding str_discrete lookup str_member has_keys find_action validate_party_object
    validate_content_hash check_window
late = refl

validate_envelope-IsAccepted_example :
    (fs : Fields) × (envelope ≡ object fs) × IsAccepted parse_date fs 1000
validate_envelope-IsAccepted_example =
    validate_envelope-IsAccepted parse_date envelope 1000 envelope_valid

-- A month 13 and an hour 99.
abbrev no_date : ℕ → Str
no_date n = codes "2026-13-45T99:99:99.000Z"

abbrev timeless : Fields
timeless = request_access_fields no_date params nonce 0

timeless_accepted : validate_envelope parse_date (object timeless) 0 ≡ valid
unfolding str_discrete lookup str_member has_keys find_action validate_party_object
    validate_content_hash check_window
timeless_accepted = refl

-- A message is signed by writing the address after it.
abbrev canonicalize : Json → Str
canonicalize v = codes "{}"

abbrev byte_length : Str → ℕ
byte_length s = 2

abbrev verify : Str → Str → Str → Bool
verify m a s = s === a

abbrev keys : Keys
keys = record {
  primary_addresses = codes "R1" ∷ codes "R2" ∷ codes "R1" ∷ codes "R3" ∷ [];
  minimum_signatures = some 2;
}

-- One address that is listed twice is one signer.
verify_canonical_signatures_lem_example :
    verify_canonical_signatures canonicalize byte_length verify envelope
      (codes "R1" ∷ codes "R1" ∷ [])
      (some keys)
    ≡ signed false
unfolding str_discrete has
verify_canonical_signatures_lem_example =
    verify_canonical_signatures_lem canonicalize byte_length verify envelope (codes "{}")
      (codes "R1" ∷ codes "R1" ∷ []) keys refl (omega arith)

abbrev sign : Str → Str
sign m = codes "R1"

signed_envelope :
    sign_canonical canonicalize byte_length parse_date sign 1000 envelope
    ≡ signed (envelope, codes "R1" ∷ [])
unfolding sign_canonical str_discrete lookup str_member has_keys find_action validate_party_object
    validate_content_hash check_window
signed_envelope = refl

sign_canonical-verifies_example :
    verify_canonical_signatures canonicalize byte_length verify envelope
      (codes "R1" ∷ [])
      (some (record { primary_addresses = codes "R1" ∷ []; minimum_signatures = some 1 }))
    ≡ signed true
unfolding str_discrete
sign_canonical-verifies_example =
    sign_canonical-verifies canonicalize byte_length parse_date sign verify (codes "R1") envelope
      envelope 1000 (codes "R1" ∷ []) (λ m. refl) signed_envelope
