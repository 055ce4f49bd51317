-- ===== src/Canonical/Signed.antt =====
-- The producer side of src/crypto/canonical.ts against its verifier.
use j41_sovagent_sdk.Prelude.{
  ℕ, ◌+◌, ◌*◌, ◌≤◌, ◌<◌, ◌≡◌, refl, ap, sym, ◌∙◌, true, Bool, List, [], ◌∷◌, arith, Option, some,
  none, Str, str_member, str_discrete,
}
use j41_sovagent_sdk.Prelude.Maps.{add}
use j41_sovagent_sdk.Prelude.Json.{Json, object, lookup}
use j41_sovagent_sdk.Canonical.{
  Check, valid, invalid, SignResult, check_message, Keys, verify_with, signed, refused,
  canonical_bytes, validate_envelope, sign_canonical, verify_canonical_signatures, collect,
  AccessParams, party, ttl_of, build_request_access_envelope, is_i_address, is_nonce, is_rfc3339_ms,
  validate_party_object, has_keys, find_action, validate_content_hash, check_window, request_access,
}

party-valid :
    (address : Str) (name : Option Str)
    → is_i_address address ≡ true
    → validate_party_object (some (object (party address name))) ≡ valid
unfolding validate_party_object lookup str_member str_discrete
party-valid address none h = rw h refl
party-valid address (some []) h = rw h refl
party-valid address (some (c ∷ cs)) h = rw h refl

ttl_of_le : (t : Option ℕ) → ttl_of t ≤ 300
ttl_of_le none = omega arith
ttl_of_le (some n) = ground arith

check_window-open :
    (now t : ℕ)
    → 0 < t
    → t ≤ 300
    → check_window request_access (some now) (some (now + t * 1000)) now ≡ valid
unfolding check_window
check_window-open now t pos h = ground arith

-- An access request that the library builds passes the library's own check when it is built. The
-- conditions are that the addresses and the nonce have their shapes, that the time to live is not
-- zero, and that the two instants are written in the format and read back as they were.
pub build_request_access_envelope-valid :
    (parse_date : Str → Option ℕ) (format : ℕ → Str) (p : AccessParams) (nonce : Str) (now : ℕ)
    → is_i_address p.buyer_i_address ≡ true
    → is_i_address p.seller_i_address ≡ true
    → is_nonce nonce ≡ true
    → 0 < ttl_of p.ttl_seconds
    → is_rfc3339_ms (format now) ≡ true
    → is_rfc3339_ms (format (now + ttl_of p.ttl_seconds * 1000)) ≡ true
    → parse_date (format now) ≡ some now
    → parse_date (format (now + ttl_of p.ttl_seconds * 1000))
      ≡ some (now + ttl_of p.ttl_seconds * 1000)
    → validate_envelope parse_date (build_request_access_envelope format p nonce now) now ≡ valid
unfolding lookup str_member str_discrete has_keys find_action validate_content_hash
build_request_access_envelope-valid parse_date format p nonce now b s n pos f1 f2 p1 p2 =
    let w = check_window-open now (ttl_of p.ttl_seconds) pos (ttl_of_le p.ttl_seconds) in
    rw
      (
        party-valid p.buyer_i_address p.buyer_name b,
        party-valid p.seller_i_address p.seller_name s,
        n,
        f1,
        f2,
        p1,
        p2,
        w,
      )
      refl

signed_inj {ℓ} : {A : Type ℓ} {a b : A} → signed a ≡ signed b → a ≡ b
signed_inj h = cc

accepts :
    (verify : Str → Str → Str → Bool) (m address signature : Str)
    → verify m address signature ≡ true
    → verify_with verify m
        (signature ∷ [])
        (some (record { primary_addresses = address ∷ []; minimum_signatures = some 1 }))
      ≡ true
unfolding collect add
accepts verify m address signature h = ground arith

signed_parts :
    (c : Check) (b : SignResult Str) (sign : Str → Str) (v : Json) {r : Json × List Str}
    → (elim c [
      | invalid e ↦ refused e
      | valid ↦ elim b [ refused e ↦ refused e | signed message ↦ signed (v, sign message ∷ []) ]
    ])
      ≡ signed r
    → (m : Str) × (b ≡ signed m) × (r ≡ (v, sign m ∷ []))
signed_parts (invalid e) b sign v h = cc
signed_parts valid (refused e) sign v h = cc
signed_parts valid (signed m) sign v h = (m, refl, sym (signed_inj h))

-- What is signed is accepted: if the buyer's only primary address is the signer's, whose signatures
-- validate against it, then a signed envelope passes verification, with the threshold of one.
pub sign_canonical-verifies :
    (canonicalize : Json → Str) (byte_length : Str → ℕ) (parse_date : Str → Option ℕ)
    (sign : Str → Str) (verify : Str → Str → Str → Bool) (address : Str) (v w : Json) (now : ℕ)
    (signatures : List Str)
    → ((m : Str) → verify m address (sign m) ≡ true)
    → sign_canonical canonicalize byte_length parse_date sign now v ≡ signed (w, signatures)
    → verify_canonical_signatures canonicalize byte_length verify w signatures
        (some (record { primary_addresses = address ∷ []; minimum_signatures = some 1 }))
      ≡ signed true
unfolding sign_canonical verify_canonical_signatures
sign_canonical-verifies canonicalize byte_length parse_date sign verify address v w now signatures
      ok h =
    let (m, b, e) =
      signed_parts (validate_envelope parse_date v now) (canonical_bytes canonicalize byte_length v)
        sign v h in
    ap (λ r. verify_canonical_signatures canonicalize byte_length verify r.0 r.1 (some keys)) e
    ∙ ap (λ c. check_message verify c (sign m ∷ []) (some keys)) b
    ∙ ap signed (accepts verify m address (sign m) (ok m))
  where
    keys : Keys
    keys = record { primary_addresses = address ∷ []; minimum_signatures = some 1 }
