-- ===== src/History/Tests.antt =====
-- A history of three snapshots, and the theorems of History at it.
use mathlib.Core.Logic.Or
use mathlib.Core.HLevel.{⊥_prop}
use mathlib.Core.List.{Nodup, Nodup-cons, Nodup-nil, not-mem-nil, eq-or-mem_of_mem-cons}
use mathlib.Core.List.Perm
use j41_sovagent_sdk.Prelude.{
  ℕ, ◌≡◌, ◌≢◌, arith, refl, List, [], ◌∷◌, map, Option, none, some, Str, codes, All, str_discrete,
}
use j41_sovagent_sdk.Prelude.Json.{
  Json, text, array, item, no_items, object, no_fields, field, lookup,
}
use j41_sovagent_sdk.Inbox.{review_record_key}
use j41_sovagent_sdk.History.{
  IdentityHistorySnapshot, HistoricalReview, snapshot_height, decode_review_value,
  decode_review_history, extract_vdxf_history, sort, insert, collect, keep_first,
}
use j41_sovagent_sdk.Prelude.Maps.{has}
use j41_sovagent_sdk.History.Order.{decode_review_history-perm}
use j41_sovagent_sdk.History.Earliest.{hashes, IsReviewed, decode_review_history-earliest}

abbrev no_text : Str → Option Json
no_text s = none

abbrev same : Str → Str
same s = s

-- As many strokes as values, enough to tell these apart.
abbrev count_values : List Json → Str
count_values [] = []
count_values (v ∷ vs) = b'|' ∷ count_values vs

abbrev review : Str → Json
review hash = object (field (codes "jobHash") (text hash) no_fields)

abbrev snapshot : ℕ → Json → IdentityHistorySnapshot
snapshot h v = record {
  height = some h;
  blockheight = none;
  content = some (field review_record_key v no_fields);
}

abbrev first : IdentityHistorySnapshot
first = snapshot 3 (review (codes "a"))

abbrev second : IdentityHistorySnapshot
second = snapshot 5 (array (item (review (codes "a")) (item (review (codes "b")) no_items)))

abbrev heights : List HistoricalReview → List (Option ℕ)
heights rs = map (λ r. r.height) rs

-- The newest first: each job once, at its first height.
newest_first :
    heights (decode_review_history count_values no_text same (second ∷ first ∷ []))
    ≡ some 3 ∷ some 5 ∷ []
unfolding decode_review_history extract_vdxf_history sort insert collect keep_first
    decode_review_value lookup str_discrete has
newest_first = refl

distinct_heights : Nodup (map snapshot_height (second ∷ first ∷ []))
distinct_heights = Nodup-cons.1 (
  λ m. Or.elim ⊥_prop (eq-or-mem_of_mem-cons m) differ not-mem-nil,
  Nodup-cons.1 (not-mem-nil, Nodup-nil),
)
  where
    differ : snapshot_height second ≢ snapshot_height first
    differ e = ground arith

decode_review_history-perm_example :
    decode_review_history count_values no_text same (second ∷ first ∷ [])
    ≡ decode_review_history count_values no_text same (first ∷ second ∷ [])
decode_review_history-perm_example =
    decode_review_history-perm count_values no_text same (second ∷ first ∷ []) (first ∷ second ∷ [])
      (Perm.swap first second []) distinct_heights

decode_review_history-earliest_example :
    Nodup (hashes (decode_review_history count_values no_text same (second ∷ first ∷ [])))
    × All
        (IsReviewed count_values no_text same
          (decode_review_history count_values no_text same (second ∷ first ∷ [])))
        (extract_vdxf_history count_values (second ∷ first ∷ []) review_record_key)
decode_review_history-earliest_example =
    decode_review_history-earliest count_values no_text same (second ∷ first ∷ [])
