-- ===== src/Access/Minted.antt =====
-- An envelope of src/crypto/envelope.ts from the seller to the buyer.
use j41_sovagent_sdk.Prelude.{
  ℕ, ◌*◌, ◌+◌, ◌≤◌, ◌<◌, ◌≡◌, refl, ap, ◌∙◌, Bool, true, false, [], ◌∷◌, arith, Option, some, Str,
}
use j41_sovagent_sdk.Access.{
  AccessEnvelope, AccessRequest, AccessPayload, Sealed, VerifyOptions, gives, keys, is_expired,
  is_from_future, unsigned_envelope, envelope_message, verify_access_envelope, is_nonce_32,
  decrypt_if, unsealed, open_access_envelope, mint_access_envelope,
}

pub mint_access_envelope-opens :
    (parse_date : Str → Option ℕ) (show : ℕ → Str) (verify : Str → Str → Str → Bool) {Key : Type 0}
    (unseal : Key → Str → AccessEnvelope → Option AccessPayload) (sign : Str → Str)
    (seal : Str → Str → AccessPayload → Sealed) (address : Str) (priv : Key) (r : AccessRequest)
    (p : AccessPayload) (minted expiry : ℕ) (o : VerifyOptions)
    → ((m : Str) → verify m address (sign m) ≡ true)
    → unseal priv r.nonce (mint_access_envelope show sign seal r p minted) ≡ some p
    → is_nonce_32 r.nonce ≡ true
    → parse_date p.expires_at ≡ some expiry
    → o.now * 1000 < expiry
    → minted ≤ o.now + o.max_age_seconds
    → open_access_envelope parse_date show verify unseal
        (mint_access_envelope show sign seal r p minted)
        priv
        r.nonce
        (some (keys (some (address ∷ [])), o))
      ≡ gives p
unfolding open_access_envelope verify_access_envelope mint_access_envelope
mint_access_envelope-opens parse_date show verify unseal sign seal address priv r p minted expiry o
      ok opens shape dated usable begun =
    let e = mint_access_envelope show sign seal r p minted in
    let fresh : is_expired (parse_date p.expires_at) o.now ≡ false = rw dated (ground arith) in
    let now_ok : is_from_future (some minted) o ≡ false = ground arith in
    let signed =
      ok
        (envelope_message show (unsigned_envelope (seal r.ephemeral_pub_key r.nonce p) p minted)) in
    let verified : verify_access_envelope parse_date show verify e (keys (some (address ∷ []))) o
        ≡ gives true =
      rw (fresh, now_ok, signed) refl in
    ap (λ a. decrypt_if parse_date show verify unseal a e priv r.nonce) verified
    ∙ rw (shape) (ap (unsealed parse_date show verify unseal) opens)
