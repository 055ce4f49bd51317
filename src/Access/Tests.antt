-- ===== src/Access/Tests.antt =====
-- A request for access of src/crypto/envelope.ts, its envelope, and a forged one.
use j41_sovagent_sdk.Prelude.{
  ℕ, ◌≡◌, refl, true, false, Bool, List, [], ◌∷◌, arith, Option, some, Str, codes, ◌===◌,
  str_discrete, str_member, starts_with,
}
use j41_sovagent_sdk.Access.{
  AccessEnvelope, AccessRequest, AccessPayload, Sealed, VerifyOptions, gives, throws, not_authentic,
  Resolver, keys, verify_access_envelope, open_access_envelope, mint_access_envelope, is_nonce_32,
  verify_access_request,
}
use j41_sovagent_sdk.Access.Authentic.{IsAuthentic, open_access_envelope-IsAuthentic}
use j41_sovagent_sdk.Access.Minted.{mint_access_envelope-opens}

abbrev show : ℕ → Str
show n = codes "7"

abbrev parse_date : Str → Option ℕ
parse_date s = some 900000

-- A signature is the address of its signer.
abbrev verify : Str → Str → Str → Bool
verify m a s = s === a

abbrev sign : Str → Str
sign m = codes "RSeller"

abbrev payload : AccessPayload
payload = record { api_key = codes "k"; endpoint_url = codes "u"; expires_at = codes "date" }

abbrev seal : Str → Str → AccessPayload → Sealed
seal key nonce p = record {
  ciphertext = codes "c";
  iv = codes "00";
  auth_tag = codes "00";
  public = codes "02";
}

abbrev unseal : ℕ → Str → AccessEnvelope → Option AccessPayload
unseal priv nonce e = some payload

abbrev request : AccessRequest
request = record {
  buyer_verus_id = codes "RBuyer";
  seller_verus_id = codes "seller@";
  ephemeral_pub_key = codes "03";
  nonce = codes "0123456789abcdef0123456789abcdef";
  timestamp = some 100;
  buyer_signature = codes "RBuyer";
}

abbrev seller : Resolver
seller = keys (some (codes "RSeller" ∷ []))

abbrev options : VerifyOptions
options = record { now = 120; max_age_seconds = 300 }

abbrev envelope : AccessEnvelope
envelope = mint_access_envelope show sign seal request payload 110

mint_access_envelope-opens_example :
    open_access_envelope parse_date show verify unseal envelope 1 request.nonce
      (some (seller, options))
    ≡ gives payload
unfolding str_discrete
mint_access_envelope-opens_example =
    mint_access_envelope-opens parse_date show verify unseal sign seal (codes "RSeller") 1 request
      payload 110 900000 options (λ m. refl) refl refl refl (omega arith) (omega arith)

open_access_envelope-IsAuthentic_example :
    IsAuthentic parse_date show verify envelope seller options
    × (is_nonce_32 request.nonce ≡ true)
    × (unseal 1 request.nonce envelope ≡ some payload)
open_access_envelope-IsAuthentic_example =
    open_access_envelope-IsAuthentic parse_date show verify unseal envelope 1 request.nonce seller
      options payload mint_access_envelope-opens_example

-- The cipher opens what a relay has sealed, but the seller did not sign it.
forged :
    open_access_envelope parse_date show verify unseal
      (record envelope { dispatcher_signature = codes "RRelay" })
      1
      request.nonce
      (some (seller, options))
    ≡ throws not_authentic
unfolding open_access_envelope verify_access_envelope mint_access_envelope str_discrete
forged = refl

accepted : verify_access_envelope parse_date show verify envelope seller options ≡ gives true
unfolding verify_access_envelope mint_access_envelope str_discrete
accepted = refl

-- A store that records the nonces it is asked for.
abbrev check : Str → List Str → Bool × List Str
check nonce store = (str_member nonce store, nonce ∷ store)

replayed :
    verify_access_request parse_date show verify
      (some check)
      request
      seller
      options
      (request.nonce ∷ [])
    ≡ (false, request.nonce ∷ request.nonce ∷ [])
unfolding verify_access_request str_discrete str_member starts_with
replayed = refl
