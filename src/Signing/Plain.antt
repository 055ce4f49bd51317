-- ===== src/Signing/Plain.antt =====
-- What the messages of src/signing/messages.ts determine: their kind, and their fields where these hold
-- no separator.
use j41_sovagent_sdk.Prelude.{
  ℕ, ◌≡◌, refl, Bool, true, false, ◌||◌, List, [], ◌∷◌, ◌++◌, arith, Str, codes, any, ◌==◌, All,
}
use j41_sovagent_sdk.Signing.{AcceptMessageParams, build_accept_message}

abbrev pub IsFree : ℕ → Str → Type 0
IsFree k s = any (λ c. c == k) s ≡ false

or-right : (x y : Bool) → (x || y) ≡ false → y ≡ false
or-right false y h = h
or-right true y h = cc

cons-head : {a b : ℕ} {s t : Str} → a ∷ s ≡ b ∷ t → a ≡ b
cons-head h = cc

cons-tail : {a b : ℕ} {s t : Str} → a ∷ s ≡ b ∷ t → s ≡ t
cons-tail h = cc

-- Two texts that go on with a separator they do not hold are the same up to it, and after it.
pub cut :
    (k : ℕ) (a b : Str) {s t : Str}
    → IsFree k a
    → IsFree k b
    → a ++ k ∷ s ≡ b ++ k ∷ t
    → (a ≡ b) × (s ≡ t)
cut k [] [] fa fb h = (refl, cons-tail h)
cut k [] (c ∷ b) fa fb h = absurd (ground (arith, h, fb))
cut k (c ∷ a) [] fa fb h = absurd (ground (arith, h, fa))
cut k (c ∷ a) (d ∷ b) fa fb h =
    let rest =
      cut k a b (or-right (c == k) (any (λ c. c == k) a) fa)
        (or-right (d == k) (any (λ c. c == k) b) fb) (cons-tail h) in
    (λ i. cons-head h i ∷ rest.0 i, rest.1)

-- The same behind a label.
cut_field :
    (k : ℕ) (label a b : Str) {s t : Str}
    → IsFree k a
    → IsFree k b
    → label ++ (a ++ k ∷ s) ≡ label ++ (b ++ k ∷ t)
    → (a ≡ b) × (s ≡ t)
cut_field k [] a b fa fb h = cut k a b fa fb h
cut_field k (c ∷ label) a b fa fb h = cut_field k label a b fa fb (cons-tail h)

abbrev pub ArePlain : List Str → Type 0
ArePlain fields = All (IsFree b'|') fields

module _ (show : ℕ → Str) where
  -- The accept message determines the job, the buyer, the amount, the currency and the time, under
  -- the same conditions, if `show` writes no space either.
  pub build_accept_message-inj :
      (p q : AcceptMessageParams)
      → ((n : ℕ) → IsFree b'|' (show n))
      → ((n : ℕ) → IsFree b' ' (show n))
      → ((m n : ℕ) → show m ≡ show n → m ≡ n)
      → ArePlain (p.job_hash ∷ p.buyer_verus_id ∷ p.currency ∷ [])
      → ArePlain (q.job_hash ∷ q.buyer_verus_id ∷ q.currency ∷ [])
      → build_accept_message show p ≡ build_accept_message show q
      → p ≡ q
  unfolding build_accept_message
  build_accept_message-inj p q plain unspaced inj (pj, (pb, (pc, _))) (qj, (qb, (qc, _))) h =
      let f1 = cut_field b'|' (codes "J41-ACCEPT|Job:") p.job_hash q.job_hash pj qj h in
      let f2 = cut_field b'|' (codes "Buyer:") p.buyer_verus_id q.buyer_verus_id pb qb f1.1 in
      let f3 =
        cut_field b' ' (codes "Amt:") (show p.amount) (show q.amount) (unspaced p.amount)
          (unspaced q.amount) f2.1 in
      let f4 = cut_field b'|' [] p.currency q.currency pc qc f3.1 in
      let f5 =
        cut_field b'|' (codes "Ts:") (show p.timestamp) (show q.timestamp) (plain p.timestamp)
          (plain q.timestamp) f4.1 in
      λ i. record {
        job_hash = f1.0 i;
        buyer_verus_id = f2.0 i;
        amount = inj p.amount q.amount f3.0 i;
        currency = f4.0 i;
        timestamp = inj p.timestamp q.timestamp f5.0 i;
      }
