-- ===== src/History/Earliest.antt =====
-- The review history of src/identity/history.ts has each job once, at its lowest height.
use mathlib.Core.Logic.Or
use mathlib.Core.HLevel.{⊥_prop}
use mathlib.Core.List.{Mem, Nodup, Nodup-nil, Nodup-cons, not-mem-nil, eq-or-mem_of_mem-cons}
use j41_sovagent_sdk.Prelude.{
  ℕ, ◌≡◌, ◌≢◌, refl, sym, ◌∙◌, true, false, inl, inr, List, [], ◌∷◌, Option, none, some, Str, All,
  All-mono, Bool-cases, str_discrete, if_pos, if_neg,
}
use j41_sovagent_sdk.Prelude.Json.{Json, Fields}
use j41_sovagent_sdk.Prelude.Maps.{has}
use j41_sovagent_sdk.Inbox.{review_record_key}
use j41_sovagent_sdk.History.{
  IdentityHistorySnapshot, VdxfHistoryEntry, HistoricalReview, sort, key_of, review_of,
  decode_review_value, keep_keyed, keep_one, keep_first, decode_review_history,
  extract_vdxf_history,
}
use j41_sovagent_sdk.History.Covered.{IsKept, keep_first-covers, Ascends-sort, Ascends-collect}

-- The hashes of the reviews that have one.
abbrev with_hash : Option Str → List Str → List Str
with_hash none hs = hs
with_hash (some hash) hs = hash ∷ hs

abbrev pub hashes : List HistoricalReview → List Str
hashes [] = []
hashes (r ∷ rs) = with_hash (key_of r.job_hash) (hashes rs)

-- No hash twice, and none that was seen.
record AreNew (seen : List Str) (hs : List Str) : Type 0 where
  distinct : Nodup hs
  unseen : All (λ j. has str_discrete j seen ≡ false) hs

not-mem_of_All : (j : Str) (hs : List Str) → All (λ i. i ≢ j) hs → ¬ Mem j hs
not-mem_of_All j [] a = not-mem-nil
not-mem_of_All j (i ∷ hs) a =
    λ m. Or.elim ⊥_prop (eq-or-mem_of_mem-cons m) (λ e. a.0 (sym e)) (not-mem_of_All j hs a.1)

has-cons :
    (j hash : Str) (seen : List Str)
    → has str_discrete j (hash ∷ seen) ≡ false
    → (j ≢ hash) × (has str_discrete j seen ≡ false)
unfolding has
has-cons j hash seen h = elim (str_discrete hash j) [
  | yes e ↦
      absurd (differ (sym (if_pos (str_discrete hash j) e true (has str_discrete j seen)) ∙ h))
  | no n ↦
      ((λ e. n (sym e)), sym (if_neg (str_discrete hash j) n true (has str_discrete j seen)) ∙ h)
]
  where
    differ : true ≢ false
    differ e = cc

module _ (stringify : List Json → Str) (parse : Str → Option Json) (from_hex : Str → Str) where
  keyed-AreNew :
      (seen : List Str) (k : Option Str) (r : HistoricalReview)
      (next : List Str → List HistoricalReview)
      → key_of r.job_hash ≡ k
      → ((s : List Str) → AreNew s (hashes (next s)))
      → AreNew seen (hashes (keep_keyed seen k r next))
  keyed-AreNew seen none r next e a = rw e (a seen)
  keyed-AreNew seen (some hash) r next e a = elim (Bool-cases (has str_discrete hash seen)) [
    | inl f ↦ rw f (a seen)
    | inr f ↦
        let rest = hashes (next (hash ∷ seen)) in
        let new = a (hash ∷ seen) in
        rw (f, e)
          (record {
            distinct = Nodup-cons.1 (
              not-mem_of_All hash rest
                  (All-mono _ (λ i. i ≢ hash) rest (λ i h. (has-cons i hash seen h).0) new.unseen),
              new.distinct,
            );
            unseen = (
              f,
              All-mono _ (λ i. has str_discrete i seen ≡ false) rest
                  (λ i h. (has-cons i hash seen h).1) new.unseen,
            );
          })
  ]

  one-AreNew :
      (seen : List Str) (h : Option ℕ) (o : Option Fields) (next : List Str → List HistoricalReview)
      → ((s : List Str) → AreNew s (hashes (next s)))
      → AreNew seen (hashes (keep_one seen h o next))
  one-AreNew seen h none next a = a seen
  one-AreNew seen h (some rec) next a =
      keyed-AreNew seen (key_of (review_of h rec).job_hash) (review_of h rec) next refl a

  keep_first-AreNew :
      (seen : List Str) (es : List VdxfHistoryEntry)
      → AreNew seen (hashes (keep_first stringify parse from_hex seen es))
  unfolding keep_first
  keep_first-AreNew seen [] = record { distinct = Nodup-nil; unseen = tt }
  keep_first-AreNew seen (e ∷ es) =
      one-AreNew seen e.height (decode_review_value parse from_hex e.value)
        (λ s. keep_first stringify parse from_hex s es) (λ s. keep_first-AreNew s es)

  -- An entry about a job has a review of that job, at its height or below.
  abbrev pub IsReviewed : List HistoricalReview → VdxfHistoryEntry → Type 0
  IsReviewed out e =
      (rec : Fields) (hash : Str)
      → decode_review_value parse from_hex e.value ≡ some rec
      → key_of (review_of e.height rec).job_hash ≡ some hash
      → IsKept out hash e.height

  -- No two recovered reviews are of the same job; and each entry of the history that decodes to a
  -- review of a job has its job among them, at the entry's height or a lower one.
  pub decode_review_history-earliest :
      (ss : List IdentityHistorySnapshot)
      → Nodup (hashes (decode_review_history stringify parse from_hex ss))
        × All
            (IsReviewed (decode_review_history stringify parse from_hex ss))
            (extract_vdxf_history stringify ss review_record_key)
  unfolding decode_review_history extract_vdxf_history has
  decode_review_history-earliest ss =
      let es = extract_vdxf_history stringify ss review_record_key in
      (
        (keep_first-AreNew [] es).distinct,
        All-mono _ (IsReviewed (decode_review_history stringify parse from_hex ss)) es
            (λ e c rec hash d k. elim (c rec hash d k) [
              | inl a ↦ absurd (unseen hash a)
              | inr b ↦ b
            ])
            (keep_first-covers stringify parse from_hex [] es
              (Ascends-collect stringify review_record_key none (sort ss) (Ascends-sort ss))),
      )
    where
      unseen : (j : Str) → has str_discrete j [] ≢ true
      unseen j e = cc
