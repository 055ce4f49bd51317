-- ===== src/Access.antt =====
-- src/crypto/envelope.ts: requests for access and the encrypted envelopes that answer them. The message
-- verifier and signer, `Date.parse`, and the curve with its key derivation and cipher are parameters.
-- `now` and the signed times are seconds, what `Date.parse` gives are milliseconds.
pub mod Authentic
pub mod Minted
pub mod Request
mod Tests
use j41_sovagent_sdk.Prelude.{
  ℕ, ◌+◌, ◌*◌, Bool, true, false, not, ◌&&◌, ◌||◌, List, [], ◌∷◌, ◌++◌, Option, none, some, ltb,
  leb, length, all, any, if◌then◌else◌, ◌==◌, Str, codes, starts_with,
}
use j41_sovagent_sdk.Prelude.Json.{is_hex_digit}

pub record AccessRequest : Type 0 where
  pub buyer_verus_id : Str
  pub seller_verus_id : Str
  pub ephemeral_pub_key : Str
  pub nonce : Str
  -- `none` where it is no finite number.
  pub timestamp : Option ℕ
  pub buyer_signature : Str

pub record AccessEnvelope : Type 0 where
  pub ciphertext : Str
  pub iv : Str
  pub auth_tag : Str
  pub dispatcher_eph_pub : Str
  pub dispatcher_signature : Str
  pub expires_at : Str
  pub timestamp : Option ℕ

pub record AccessPayload : Type 0 where
  pub api_key : Str
  pub endpoint_url : Str
  pub expires_at : Str

abbrev pub default_max_age_seconds : ℕ
default_max_age_seconds = 300

-- The `now` and `maxAgeSeconds` of the options, with the default filled in.
pub record VerifyOptions : Type 0 where
  pub now : ℕ
  pub max_age_seconds : ℕ

pub data AccessError : Type 0 where
  no_context no_seller_address agent_lookup_failed not_authentic bad_nonce not_decrypted :
      AccessError

pub data Answer {ℓ} (A : Type ℓ) : Type ℓ where
  gives : A → Answer A
  throws : AccessError → Answer A

-- What the client answers for an identity. With `getIdentityKeys` a throw and a missing list are no
-- address; without it `getAgent` names one address or none, or throws.
pub data Resolver : Type 0 where
  keys : Option (List Str) → Resolver
  agent : Option (Option Str) → Resolver

abbrev pub one_address : Option Str → List Str
one_address none = []
one_address (some []) = []
one_address (some (c ∷ cs)) = (c ∷ cs) ∷ []

abbrev pub seller_addresses : Resolver → Answer (List Str)
seller_addresses (keys none) = gives []
seller_addresses (keys (some addresses)) = gives addresses
seller_addresses (agent none) = throws agent_lookup_failed
seller_addresses (agent (some a)) = gives (one_address a)

abbrev pub resolved_or_self : Str → List Str → List Str
resolved_or_self self [] = self ∷ []
resolved_or_self self (a ∷ rest) = a ∷ rest

-- The buyer's candidates: an id that looks like an i-address is resolved, and is its own last resort.
abbrev pub lookup_buyer : Resolver → List Str
lookup_buyer (keys none) = []
lookup_buyer (keys (some addresses)) = addresses
lookup_buyer (agent none) = []
lookup_buyer (agent (some a)) = one_address a

abbrev pub buyer_addresses : Str → Resolver → List Str
buyer_addresses id resolver =
    if starts_with id (codes "i") && ltb 30 (length id)
    then resolved_or_self id (lookup_buyer resolver)
    else id ∷ []

-- `nonce.length !== 32 || !/^[0-9a-f]+$/i`
abbrev pub is_nonce_32 : Str → Bool
is_nonce_32 nonce = length nonce == 32 && all is_hex_digit nonce

module _ (show : ℕ → Str) where
  abbrev pub show_time : Option ℕ → Str
  show_time none = codes "NaN"
  show_time (some t) = show t

  abbrev pub envelope_message : AccessEnvelope → Str
  envelope_message e =
      codes "J41-ACCESS-ENVELOPE|Cipher:"
      ++ (e.ciphertext
          ++ (codes "|IV:"
              ++ (e.iv
                  ++ (codes "|Tag:"
                      ++ (e.auth_tag
                          ++ (codes "|DispPub:"
                              ++ (e.dispatcher_eph_pub
                                  ++ (codes "|Ts:"
                                      ++ (show_time e.timestamp
                                          ++ (codes "|Expires:" ++ e.expires_at))))))))))

  abbrev pub request_message : AccessRequest → Str
  request_message r =
      codes "J41-ACCESS-REQUEST|Buyer:"
      ++ (r.buyer_verus_id
          ++ (codes "|Seller:"
              ++ (r.seller_verus_id
                  ++ (codes "|EphPub:"
                      ++ (r.ephemeral_pub_key
                          ++ (codes "|Nonce:"
                              ++ (r.nonce ++ (codes "|Ts:" ++ show_time r.timestamp))))))))

-- `!Number.isFinite(expiresMs) || expiresMs <= now * 1000`
abbrev pub is_expired : Option ℕ → (now : ℕ) → Bool
is_expired none now = true
is_expired (some ms) now = leb ms (now * 1000)

-- `!Number.isFinite(t) || t - now > maxAge`
abbrev pub is_from_future : Option ℕ → VerifyOptions → Bool
is_from_future none o = true
is_from_future (some t) o = ltb (o.now + o.max_age_seconds) t

-- `!Number.isFinite(t) || Math.abs(now - t) > maxAge`
abbrev pub is_stale : Option ℕ → VerifyOptions → Bool
is_stale none o = true
is_stale (some t) o = ltb (o.now + o.max_age_seconds) t || ltb (t + o.max_age_seconds) o.now

module _ (parse_date : Str → Option ℕ) (show : ℕ → Str)
    (verify : (message address signature : Str) → Bool) where
  abbrev pub verify_any : AccessEnvelope → List Str → Answer Bool
  verify_any e [] = throws no_seller_address
  verify_any e (a ∷ rest) =
      gives (any (λ b. verify (envelope_message show e) b e.dispatcher_signature) (a ∷ rest))

  abbrev pub verify_resolved : AccessEnvelope → Answer (List Str) → Answer Bool
  verify_resolved e (throws err) = throws err
  verify_resolved e (gives addresses) = verify_any e addresses

  -- `verifyAccessEnvelope`
  unfoldable pub verify_access_envelope : AccessEnvelope → Resolver → VerifyOptions → Answer Bool
  verify_access_envelope e resolver o =
      if is_expired (parse_date e.expires_at) o.now
      then gives false
      else if is_from_future e.timestamp o
      then gives false
      else verify_resolved e (seller_addresses resolver)

  module _ {Store : Type 0} (check_replay : Option (Str → Store → Bool × Store)) where
    abbrev pub consult : Option (Str → Store → Bool × Store) → Str → Store → Bool × Store
    consult none nonce store = (true, store)
    consult (some check) nonce store = let (seen, store') = check nonce store in (not seen, store')

    -- `verifyAccessRequest`, with the store of nonces that `isReplay` keeps.
    unfoldable pub verify_access_request :
        AccessRequest → Resolver → VerifyOptions → Store → Bool × Store
    verify_access_request r resolver o store =
        if is_stale r.timestamp o
        then (false, store)
        else if not (
            any (λ a. verify (request_message show r) a r.buyer_signature)
              (buyer_addresses r.buyer_verus_id resolver))
        then (false, store)
        else consult check_replay r.nonce store

  -- `unseal` is the shared secret, the key derivation, the decryption and the JSON of the payload.
  module _ {Key : Type 0}
      (unseal : (eph_priv : Key) → (nonce : Str) → AccessEnvelope → Option AccessPayload) where
    abbrev pub unsealed : Option AccessPayload → Answer AccessPayload
    unsealed none = throws not_decrypted
    unsealed (some p) = gives p

    -- `decryptEnvelope`
    abbrev pub decrypt_envelope : AccessEnvelope → Key → Str → Answer AccessPayload
    decrypt_envelope e priv nonce =
        if is_nonce_32 nonce then unsealed (unseal priv nonce e) else throws bad_nonce

    abbrev pub decrypt_if : Answer Bool → AccessEnvelope → Key → Str → Answer AccessPayload
    decrypt_if (throws err) e priv nonce = throws err
    decrypt_if (gives false) e priv nonce = throws not_authentic
    decrypt_if (gives true) e priv nonce = decrypt_envelope e priv nonce

    -- `openAccessEnvelope`; `none` is a missing or incomplete context.
    unfoldable pub open_access_envelope :
        AccessEnvelope
        → Key
        → (nonce : Str) → Option (Resolver × VerifyOptions)
        → Answer AccessPayload
    unfolding verify_access_envelope
    open_access_envelope e priv nonce none = throws no_context
    open_access_envelope e priv nonce (some (resolver, o)) =
        decrypt_if (verify_access_envelope e resolver o) e priv nonce

-- The sealed parts of an envelope.
pub record Sealed : Type 0 where
  pub ciphertext : Str
  pub iv : Str
  pub auth_tag : Str
  pub public : Str

-- `mintAccessEnvelope`, with what the curve and the cipher make of the payload.
abbrev pub unsigned_envelope : Sealed → AccessPayload → (now : ℕ) → AccessEnvelope
unsigned_envelope s p now = record {
  ciphertext = s.ciphertext;
  iv = s.iv;
  auth_tag = s.auth_tag;
  dispatcher_eph_pub = s.public;
  dispatcher_signature = [];
  expires_at = p.expires_at;
  timestamp = some now;
}

unfoldable pub mint_access_envelope :
    (show : ℕ → Str) (sign : Str → Str) (seal : (request_key nonce : Str) → AccessPayload → Sealed)
    → AccessRequest
    → AccessPayload
    → (now : ℕ) → AccessEnvelope
mint_access_envelope show sign seal r p now =
    let e = unsigned_envelope (seal r.ephemeral_pub_key r.nonce p) p now in
    record e { dispatcher_signature = sign (envelope_message show e) }
