-- ===== src/Canonical/Threshold.antt =====
-- The multi-signature threshold of `verifyCanonicalSignatures` in src/crypto/canonical.ts.
use j41_sovagent_sdk.Prelude.{
  ◌<◌, some, ap, ◌∙◌, ℕ, ◌+◌, ◌≡◌, refl, Bool, true, false, not, ◌&&◌, List, [], ◌∷◌, arith, length,
  Str, str_discrete, Bool-cases, inl, inr, if◌then◌else◌, leb,
}
use j41_sovagent_sdk.Prelude.Maps.{has, add, has-add, length-add}
use j41_sovagent_sdk.Prelude.Json.{Json}
use j41_sovagent_sdk.Canonical.{
  signed, canonical_bytes, check_message, verify_with, verify_canonical_signatures, threshold_of,
  Keys, signs, collect,
}

-- How many different addresses of a list pass a test and are not in another list: each is counted
-- where it stands last.
abbrev pub count_new : (Str → Bool) → List Str → List Str → ℕ
count_new p old [] = 0
count_new p old (a ∷ rest) =
    (if p a && not (has str_discrete a old) && not (has str_discrete a rest) then 1 else 0)
    + count_new p old rest

abbrev pub count_distinct : (Str → Bool) → List Str → ℕ
count_distinct p = count_new p []

count_new-add :
    (p : Str → Bool) (a : Str) (old xs : List Str)
    → p a ≡ true
    → has str_discrete a old ≡ false
    → count_new p old xs
      ≡ count_new p (add str_discrete a old) xs + (if has str_discrete a xs then 1 else 0)
unfolding has
count_new-add p a old [] h n = refl
count_new-add p a old (b ∷ xs) h n =
    ground (arith, count_new-add p a old xs h n, has-add str_discrete a b old)

count_new-old :
    (p : Str → Bool) (a : Str) (old xs : List Str)
    → has str_discrete a old ≡ true
    → count_new p (add str_discrete a old) xs ≡ count_new p old xs
count_new-old p a old [] h = refl
count_new-old p a old (b ∷ xs) h =
    ground (arith, count_new-old p a old xs h, has-add str_discrete a b old)

module _ (verify : Str → Str → Str → Bool) (message : Str) (signatures : List Str) where
  collect_lem :
      (t : ℕ) (matched xs : List Str)
      → collect verify message signatures t matched xs
        ≡ leb t (length matched + count_new (signs verify message signatures) matched xs)
  unfolding collect
  collect_lem t matched [] = ground arith
  collect_lem t matched (a ∷ xs) =
      let p = signs verify message signatures in
      elim (Bool-cases (p a)) [
        | inr n ↦ rw n (ground (arith, collect_lem t matched xs))
        | inl s ↦ elim (Bool-cases (has str_discrete a matched)) [
          | inl old ↦ rw s (
              ground (
                arith,
                old,
                collect_lem t (add str_discrete a matched) xs,
                length-add str_discrete a matched,
                count_new-old p a matched xs old,
              ))
          | inr new ↦ rw s (
              ground (
                arith,
                new,
                collect_lem t (add str_discrete a matched) xs,
                length-add str_discrete a matched,
                count_new-add p a matched xs s new,
              ))
        ]
      ]

count_new-none :
    (p : Str → Bool) (old xs : List Str) → ((a : Str) → p a ≡ false) → count_new p old xs ≡ 0
count_new-none p old [] h = refl
count_new-none p old (a ∷ xs) h = rw (h a) (omega (arith, count_new-none p old xs h))

-- If the envelope is not too large and the buyer's keys are resolved with a positive threshold, then
-- the signatures are accepted exactly when at least the threshold of different primary addresses has
-- a signature that validates against it; an empty list of signatures or of addresses is refused.
pub verify_canonical_signatures_lem :
    (canonicalize : Json → Str) (byte_length : Str → ℕ) (verify : Str → Str → Str → Bool) (v : Json)
    (message : Str) (signatures : List Str) (keys : Keys)
    → canonical_bytes canonicalize byte_length v ≡ signed message
    → 0 < threshold_of keys.minimum_signatures
    → verify_canonical_signatures canonicalize byte_length verify v signatures (some keys)
      ≡ signed (
          leb
            (threshold_of keys.minimum_signatures)
            (count_distinct (signs verify message signatures) keys.primary_addresses))
unfolding verify_canonical_signatures
verify_canonical_signatures_lem canonicalize byte_length verify v message [] keys b pos =
    rw (count_new-none (λ a. false) [] keys.primary_addresses (λ a. refl))
      (ap signed (ground arith))
verify_canonical_signatures_lem canonicalize byte_length verify v message (s ∷ ss) keys b pos =
    ap (λ c. check_message verify c (s ∷ ss) (some keys)) b ∙ ap signed (go keys.primary_addresses)
  where
    t : ℕ
    t = threshold_of keys.minimum_signatures

    go :
        (xs : List Str)
        → verify_with verify message
            (s ∷ ss)
            (some (record { primary_addresses = xs; minimum_signatures = keys.minimum_signatures }))
          ≡ leb t (count_distinct (signs verify message (s ∷ ss)) xs)
    go [] = ground arith
    go (a ∷ xs) = collect_lem verify message (s ∷ ss) t [] (a ∷ xs) ∙ ap (leb t) (omega arith)
