-- ===== src/Access/Authentic.antt =====
-- What an envelope that src/crypto/envelope.ts opens has been checked for, and for how long it opens.
use mathlib.Core.List.{Mem, mem-cons_self, mem-cons_of_mem}
use j41_sovagent_sdk.Prelude.{
  ℕ, ◌*◌, ◌+◌, ◌≤◌, ◌<◌, ◌≡◌, refl, Bool, true, false, List, [], ◌∷◌, arith, Option, none, some,
  any, Str, Bool-cases, inl, inr,
}
use j41_sovagent_sdk.Access.{
  bad_nonce, is_nonce_32, unsealed, decrypt_envelope, decrypt_if, open_access_envelope,
  AccessPayload, AccessEnvelope, VerifyOptions, Answer, gives, throws, Resolver, seller_addresses,
  envelope_message, is_expired, is_from_future, verify_any, verify_resolved, verify_access_envelope,
}

pub any-Mem {ℓ} :
    {A : Type ℓ} (p : A → Bool) (xs : List A) → any p xs ≡ true → (x : A) × Mem x xs × (p x ≡ true)
any-Mem p [] h = cc
any-Mem p (x ∷ xs) h = elim (Bool-cases (p x)) [
  | inl e ↦ (x, mem-cons_self, e)
  | inr e ↦ let (y, m, q) = any-Mem p xs (ground arith) in (y, mem-cons_of_mem x m, q)
]

module _ (parse_date : Str → Option ℕ) (show : ℕ → Str)
    (verify : (message address signature : Str) → Bool) where
  -- One of the addresses that the client gives for the seller signed the envelope, its key has not
  -- expired, and its time is not too far in the future.
  pub record IsAuthentic (e : AccessEnvelope) (resolver : Resolver) (o : VerifyOptions)
      : Type 0 where
    pub address : Str
    pub addresses : List Str
    pub resolved : seller_addresses resolver ≡ gives addresses
    pub known : Mem address addresses
    pub signed : verify (envelope_message show e) address e.dispatcher_signature ≡ true
    pub expiry : ℕ
    pub dated : parse_date e.expires_at ≡ some expiry
    pub usable : o.now * 1000 < expiry
    pub issued : ℕ
    pub stamped : e.timestamp ≡ some issued
    pub begun : issued ≤ o.now + o.max_age_seconds

  verify_any-signed :
      (e : AccessEnvelope) (addresses : List Str)
      → verify_any parse_date show verify e addresses ≡ gives true
      → (a : Str) × Mem a addresses
        × (verify (envelope_message show e) a e.dispatcher_signature ≡ true)
  verify_any-signed e [] h = cc
  verify_any-signed e (a ∷ rest) h =
      any-Mem (λ b. verify (envelope_message show e) b e.dispatcher_signature) (a ∷ rest)
        (gives_inj h)
    where
      gives_inj : {b c : Bool} → gives b ≡ gives c → b ≡ c
      gives_inj h = cc

  not_expired :
      (d : Option ℕ) (now : ℕ)
      → is_expired d now ≡ false
      → (ms : ℕ) × (d ≡ some ms) × (now * 1000 < ms)
  not_expired none now h = cc
  not_expired (some ms) now h = (ms, refl, ground arith)

  not_future :
      (t : Option ℕ) (o : VerifyOptions)
      → is_from_future t o ≡ false
      → (n : ℕ) × (t ≡ some n) × (n ≤ o.now + o.max_age_seconds)
  not_future none o h = cc
  not_future (some n) o h = (n, refl, ground arith)

  verify_access_envelope-IsAuthentic :
      (e : AccessEnvelope) (resolver : Resolver) (o : VerifyOptions)
      → verify_access_envelope parse_date show verify e resolver o ≡ gives true
      → IsAuthentic e resolver o
  unfolding verify_access_envelope
  verify_access_envelope-IsAuthentic e resolver o h =
      let (expiry, dated, usable) = not_expired (parse_date e.expires_at) o.now (ground arith) in
      let (issued, stamped, begun) = not_future e.timestamp o (ground arith) in
      let (addresses, resolved, signed) = resolve (seller_addresses resolver) (ground arith) in
      let (address, known, by) = verify_any-signed e addresses signed in
      record {
        address = address;
        addresses = addresses;
        resolved = resolved;
        known = known;
        signed = by;
        expiry = expiry;
        dated = dated;
        usable = usable;
        issued = issued;
        stamped = stamped;
        begun = begun;
      }
    where
      resolve :
          (a : Answer (List Str))
          → verify_resolved parse_date show verify e a ≡ gives true
          → (xs : List Str) × (a ≡ gives xs) × (verify_any parse_date show verify e xs ≡ gives true)
      resolve (throws err) h = cc
      resolve (gives xs) h = (xs, refl, h)

  -- Whatever envelope a relay delivers, a payload is given only for one that the expected seller signed
  -- and whose key is still usable, and it is what that envelope decrypts to with the request's nonce.
  pub open_access_envelope-IsAuthentic :
      {Key : Type 0} (unseal : Key → Str → AccessEnvelope → Option AccessPayload)
      (e : AccessEnvelope) (priv : Key) (nonce : Str) (resolver : Resolver) (o : VerifyOptions)
      (p : AccessPayload)
      → open_access_envelope parse_date show verify unseal e priv nonce (some (resolver, o))
        ≡ gives p
      → IsAuthentic e resolver o × (is_nonce_32 nonce ≡ true) × (unseal priv nonce e ≡ some p)
  unfolding open_access_envelope
  open_access_envelope-IsAuthentic unseal e priv nonce resolver o p h =
      let (yes', opened) =
        verified (verify_access_envelope parse_date show verify e resolver o) h in
      let (shaped, made) = decrypted opened in
      (verify_access_envelope-IsAuthentic e resolver o yes', shaped, made)
    where
      verified :
          (a : Answer Bool)
          → decrypt_if parse_date show verify unseal a e priv nonce ≡ gives p
          → (a ≡ gives true)
            × (decrypt_envelope parse_date show verify unseal e priv nonce ≡ gives p)
      verified (throws err) h = cc
      verified (gives false) h = cc
      verified (gives true) h = (refl, h)

      given :
          (q : Option AccessPayload)
          → unsealed parse_date show verify unseal q ≡ gives p
          → q ≡ some p
      given none h = cc
      given (some q) h = cc

      no_nonce : ¬ (throws bad_nonce ≡ gives p)
      no_nonce h = cc

      decrypted :
          decrypt_envelope parse_date show verify unseal e priv nonce ≡ gives p
          → (is_nonce_32 nonce ≡ true) × (unseal priv nonce e ≡ some p)
      decrypted h = elim (Bool-cases (is_nonce_32 nonce)) [
        | inl e1 ↦ (e1, given (unseal priv nonce e) (rw e1 at h))
        | inr e1 ↦ absurd (no_nonce (rw e1 at h))
      ]

  -- The age of an envelope is not limited: one that is accepted stays accepted, with the same answers of
  -- the client, until its key expires.
  pub verify_access_envelope_ageless :
      (e : AccessEnvelope) (resolver : Resolver) (o : VerifyOptions) (later expiry : ℕ)
      → verify_access_envelope parse_date show verify e resolver o ≡ gives true
      → o.now ≤ later
      → parse_date e.expires_at ≡ some expiry
      → later * 1000 < expiry
      → verify_access_envelope parse_date show verify e resolver (record o { now = later })
        ≡ gives true
  unfolding verify_access_envelope
  verify_access_envelope_ageless e resolver o later expiry h le dated usable =
      let now_ok : is_expired (parse_date e.expires_at) later ≡ false = rw dated (ground arith) in
      let a = verify_access_envelope-IsAuthentic e resolver o h in
      let time_ok : is_from_future e.timestamp (record o { now = later }) ≡ false =
        rw a.stamped (ground (arith, a.begun)) in
      rw (now_ok, time_ok) (ground arith)
