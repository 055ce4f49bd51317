-- ===== src/History/Covered.antt =====
-- Of each job src/identity/history.ts keeps the first entry, which has the lowest height.
use mathlib.Core.List.{Mem, mem-cons_self, mem-cons_of_mem}
use j41_sovagent_sdk.Prelude.{
  ℕ, ◌≡◌, refl, ap, sym, ◌∙◌, true, ◌⊎◌, inl, inr, List, [], ◌∷◌, ◌++◌, Option, none, some, Str,
  arith, All, All-mono, Bool-cases, str_discrete, if_neg,
}
use j41_sovagent_sdk.Prelude.Json.{Json, Fields}
use j41_sovagent_sdk.Prelude.Maps.{has}
use j41_sovagent_sdk.History.{
  IdentityHistorySnapshot, VdxfHistoryEntry, HistoricalReview, snapshot_height, not_after, insert,
  sort, values_under, entries_at, is_last, collect_one, collect, keep_keyed, keep_one, key_of,
  review_of, decode_review_value, keep_first,
}
use j41_sovagent_sdk.History.Order.{not_after_total, not_after_trans}

not_after_refl : (a : Option ℕ) → not_after a a ≡ true
not_after_refl none = refl
not_after_refl (some a) = ground arith

-- Heights ascend.
abbrev pub Ascends {ℓ} : {A : Type ℓ} → (A → Option ℕ) → List A → Type 0
Ascends height [] = Unit
Ascends height (a ∷ as') =
    All (λ b. not_after (height a) (height b) ≡ true) as' × Ascends height as'

abbrev pub Above {ℓ} : {A : Type ℓ} → (A → Option ℕ) → Option ℕ → List A → Type 0
Above height h l = All (λ b. not_after h (height b) ≡ true) l

Above-insert :
    (h : Option ℕ) (s : IdentityHistorySnapshot) (l : List IdentityHistorySnapshot)
    → not_after h (snapshot_height s) ≡ true
    → Above snapshot_height h l
    → Above snapshot_height h (insert s l)
unfolding insert
Above-insert h s [] hs hl = (hs, tt)
Above-insert h s (t ∷ ts) hs hl =
    elim (Bool-cases (not_after (snapshot_height s) (snapshot_height t))) [
      | inl e ↦ rw e (hs, hl)
      | inr e ↦ rw e (hl.0, Above-insert h s ts hs hl.1)
    ]

Ascends-insert :
    (s : IdentityHistorySnapshot) (l : List IdentityHistorySnapshot)
    → Ascends snapshot_height l
    → Ascends snapshot_height (insert s l)
unfolding insert
Ascends-insert s [] a = (tt, tt)
Ascends-insert s (t ∷ ts) a =
    elim (Bool-cases (not_after (snapshot_height s) (snapshot_height t))) [
      | inl e ↦ rw e (
        (
          e,
          All-mono (λ b. not_after (snapshot_height t) (snapshot_height b) ≡ true)
              (λ b. not_after (snapshot_height s) (snapshot_height b) ≡ true) ts
              (λ b. not_after_trans (snapshot_height s) (snapshot_height t) (snapshot_height b) e)
              a.0,
        ),
        a,
      )
      | inr e ↦ rw e (
        Above-insert (snapshot_height t) s ts
            (not_after_total (snapshot_height s) (snapshot_height t) e) a.0,
        Ascends-insert s ts a.1,
      )
    ]

pub Ascends-sort : (ss : List IdentityHistorySnapshot) → Ascends snapshot_height (sort ss)
unfolding sort
Ascends-sort [] = tt
Ascends-sort (s ∷ ss) = Ascends-insert s (sort ss) (Ascends-sort ss)

abbrev pub entry_height : VdxfHistoryEntry → Option ℕ
entry_height e = e.height

-- Entries of one height, and higher ones after them.
Above-entries_at :
    (g h : Option ℕ) (vs : List Json) (es : List VdxfHistoryEntry)
    → not_after g h ≡ true
    → Above entry_height g es
    → Above entry_height g (entries_at h vs ++ es)
Above-entries_at g h [] es e a = a
Above-entries_at g h (v ∷ vs) es e a = (e, Above-entries_at g h vs es e a)

Ascends-entries_at :
    (h : Option ℕ) (vs : List Json) (es : List VdxfHistoryEntry)
    → Above entry_height h es
    → Ascends entry_height es
    → Ascends entry_height (entries_at h vs ++ es)
Ascends-entries_at h [] es b a = a
Ascends-entries_at h (v ∷ vs) es b a =
    (Above-entries_at h h vs es (not_after_refl h) b, Ascends-entries_at h vs es b a)

module _ (stringify : List Json → Str) where
  Above-collect_one :
      (g : Option ℕ) (last : Option Str) (h : Option ℕ) (o : Option (List Json))
      (next : Option Str → List VdxfHistoryEntry)
      → not_after g h ≡ true
      → ((l : Option Str) → Above entry_height g (next l))
      → Above entry_height g (collect_one stringify last h o next)
  Above-collect_one g last h none next e a = a last
  Above-collect_one g last h (some vs) next e a = elim (Bool-cases (is_last last (stringify vs))) [
    | inl f ↦ rw f (a last)
    | inr f ↦
        rw f (Above-entries_at g h vs (next (some (stringify vs))) e (a (some (stringify vs))))
  ]

  Ascends-collect_one :
      (last : Option Str) (h : Option ℕ) (o : Option (List Json))
      (next : Option Str → List VdxfHistoryEntry)
      → ((l : Option Str) → Above entry_height h (next l))
      → ((l : Option Str) → Ascends entry_height (next l))
      → Ascends entry_height (collect_one stringify last h o next)
  Ascends-collect_one last h none next b a = a last
  Ascends-collect_one last h (some vs) next b a = elim (Bool-cases (is_last last (stringify vs))) [
    | inl f ↦ rw f (a last)
    | inr f ↦ rw f (
        Ascends-entries_at h vs (next (some (stringify vs))) (b (some (stringify vs)))
          (a (some (stringify vs))))
  ]

  Above-collect :
      (h : Option ℕ) (key : Str) (last : Option Str) (ss : List IdentityHistorySnapshot)
      → Above snapshot_height h ss
      → Above entry_height h (collect stringify key last ss)
  unfolding collect
  Above-collect h key last [] a = tt
  Above-collect h key last (s ∷ ss) a =
      Above-collect_one h last (snapshot_height s) (values_under key s)
        (λ l. collect stringify key l ss) a.0 (λ l. Above-collect h key l ss a.1)

  pub Ascends-collect :
      (key : Str) (last : Option Str) (ss : List IdentityHistorySnapshot)
      → Ascends snapshot_height ss
      → Ascends entry_height (collect stringify key last ss)
  unfolding collect
  Ascends-collect key last [] a = tt
  Ascends-collect key last (s ∷ ss) a =
      Ascends-collect_one last (snapshot_height s) (values_under key s)
        (λ l. collect stringify key l ss) (λ l. Above-collect (snapshot_height s) key l ss a.0)
        (λ l. Ascends-collect key l ss a.1)

-- A review of the job, at the height of the entry or below it.
abbrev pub IsKept : List HistoricalReview → Str → Option ℕ → Type 0
IsKept out hash h =
    (r : HistoricalReview) × Mem r out
    × (key_of r.job_hash ≡ some hash)
    × (not_after r.height h ≡ true)

IsKept-cons :
    (r : HistoricalReview) (out : List HistoricalReview) (hash : Str) (h : Option ℕ)
    → IsKept out hash h
    → IsKept (r ∷ out) hash h
IsKept-cons r out hash h (q, m, k, a) = (q, mem-cons_of_mem r m, k, a)

module _ (stringify : List Json → Str) (parse : Str → Option Json) (from_hex : Str → Str) where
  -- An entry about a job that was seen before, or is kept.
  abbrev pub IsCovered : List Str → List HistoricalReview → VdxfHistoryEntry → Type 0
  IsCovered seen out e =
      (rec : Fields) (hash : Str)
      → decode_review_value parse from_hex e.value ≡ some rec
      → key_of (review_of e.height rec).job_hash ≡ some hash
      → (has str_discrete hash seen ≡ true) ⊎ IsKept out hash e.height

  -- What is covered stays covered when a review is put in front, and its hash need no longer count
  -- as seen.
  IsCovered-cons :
      (seen : List Str) (r : HistoricalReview) (out : List HistoricalReview)
      (es : List VdxfHistoryEntry)
      → All (IsCovered seen out) es
      → All (IsCovered seen (r ∷ out)) es
  IsCovered-cons seen r out es c =
      All-mono (IsCovered seen out) (IsCovered seen (r ∷ out)) es
        (λ e old rec hash d k. elim (old rec hash d k) [
          | inl a ↦ inl a
          | inr b ↦ inr (IsKept-cons r out hash e.height b)
        ])
        c

  IsCovered-fresh :
      (seen : List Str) (hash : Str) (r : HistoricalReview) (out : List HistoricalReview)
      (es : List VdxfHistoryEntry)
      → key_of r.job_hash ≡ some hash
      → Above entry_height r.height es
      → All (IsCovered (hash ∷ seen) out) es
      → All (IsCovered seen (r ∷ out)) es
  unfolding has
  IsCovered-fresh seen hash r out [] e b c = tt
  IsCovered-fresh seen hash r out (x ∷ es) e b c = (
    (λ rec j d k. elim (c.0 rec j d k) [
      | inr kept ↦ inr (IsKept-cons r out j x.height kept)
      | inl was ↦ elim (str_discrete hash j) [
        | yes same ↦ inr (r, mem-cons_self, e ∙ ap some same, b.0)
        | no other ↦
            inl (sym (if_neg (str_discrete hash j) other true (has str_discrete j seen)) ∙ was)
      ]
    ]),
    IsCovered-fresh seen hash r out es e b.1 c.1,
  )

  keyed-covers :
      (seen : List Str) (k : Option Str) (h : Option ℕ) (rec : Fields) (es : List VdxfHistoryEntry)
      (next : List Str → List HistoricalReview)
      → key_of (review_of h rec).job_hash ≡ k
      → Above entry_height h es
      → ((s : List Str) → All (IsCovered s (next s)) es)
      → All (IsCovered seen (keep_keyed seen k (review_of h rec) next)) es
  keyed-covers seen none h rec es next e b c =
      IsCovered-cons seen (review_of h rec) (next seen) es (c seen)
  keyed-covers seen (some hash) h rec es next e b c =
      elim (Bool-cases (has str_discrete hash seen)) [
        | inl f ↦ rw f (c seen)
        | inr f ↦ rw f (
            IsCovered-fresh seen hash (review_of h rec) (next (hash ∷ seen)) es e b
              (c (hash ∷ seen)))
      ]

  one-covers :
      (seen : List Str) (h : Option ℕ) (o : Option Fields) (es : List VdxfHistoryEntry)
      (next : List Str → List HistoricalReview)
      → Above entry_height h es
      → ((s : List Str) → All (IsCovered s (next s)) es)
      → All (IsCovered seen (keep_one seen h o next)) es
  one-covers seen h none es next b c = c seen
  one-covers seen h (some rec) es next b c =
      keyed-covers seen (key_of (review_of h rec).job_hash) h rec es next refl b c

  keyed_self :
      (seen : List Str) (k : Option Str) (r : HistoricalReview)
      (next : List Str → List HistoricalReview) (hash : Str)
      → key_of r.job_hash ≡ some hash
      → k ≡ some hash
      → (has str_discrete hash seen ≡ true) ⊎ IsKept (keep_keyed seen k r next) hash r.height
  keyed_self seen k r next hash e f = rw f (elim (Bool-cases (has str_discrete hash seen)) [
    | inl g ↦ inl g
    | inr g ↦ inr (rw g (r, mem-cons_self, e, not_after_refl r.height))
  ])

  pub keep_first-covers :
      (seen : List Str) (es : List VdxfHistoryEntry)
      → Ascends entry_height es
      → All (IsCovered seen (keep_first stringify parse from_hex seen es)) es
  unfolding keep_first
  keep_first-covers seen [] a = tt
  keep_first-covers seen (e ∷ es) a =
      let next = λ (s : List Str). keep_first stringify parse from_hex s es in
      (
        (λ rec hash d k. rw d (
            keyed_self seen (key_of (review_of e.height rec).job_hash) (review_of e.height rec) next
              hash k k)),
        one-covers seen e.height (decode_review_value parse from_hex e.value) es next a.0
            (λ s. keep_first-covers s es a.1),
      )
