-- ===== src/History.antt =====
-- src/identity/history.ts: what the snapshots of an identity say about its past. `stringify` is
-- `JSON.stringify` on the values under a key, `parse` is `JSON.parse`, where a throw is `none`, and
-- `from_hex` is the UTF-8 text of the bytes of a hexadecimal text.
pub mod Order
pub mod Covered
pub mod Earliest
mod Tests
use j41_sovagent_sdk.Prelude.{
  ℕ, ◌%◌, ◌==◌, Bool, true, false, ◌&&◌, ◌||◌, List, [], ◌∷◌, ◌++◌, map, Option, none, some, Str,
  codes, length, leb, all, ◌===◌, str_discrete, if◌then◌else◌,
}
use j41_sovagent_sdk.Prelude.Json.{
  Json, null, undefined, number, other_number, text, array, object, Items, no_items, item, Fields,
  lookup, is_hex_digit,
}
use j41_sovagent_sdk.Prelude.Maps.{has}
use j41_sovagent_sdk.Inbox.{review_record_key, data_descriptor_key}

-- `content` is the contentmultimap, where it is there.
pub record IdentityHistorySnapshot : Type 0 where
  pub height : Option ℕ
  pub blockheight : Option ℕ
  pub content : Option Fields

pub record VdxfHistoryEntry : Type 0 where
  pub height : Option ℕ
  pub value : Json

abbrev pub snapshot_height : IdentityHistorySnapshot → Option ℕ
snapshot_height s = elim s.height [ some h ↦ some h | none ↦ s.blockheight ]

-- The comparator of the sort: the first is not after the second.
abbrev pub not_after : Option ℕ → Option ℕ → Bool
not_after none none = true
not_after none (some b) = false
not_after (some a) none = true
not_after (some a) (some b) = leb a b

-- `Array.prototype.sort` is stable.
unfoldable pub insert :
    IdentityHistorySnapshot → List IdentityHistorySnapshot → List IdentityHistorySnapshot
insert s [] = s ∷ []
insert s (t ∷ ts) =
    if not_after (snapshot_height s) (snapshot_height t) then s ∷ t ∷ ts else t ∷ insert s ts

unfoldable pub sort : List IdentityHistorySnapshot → List IdentityHistorySnapshot
sort [] = []
sort (s ∷ ss) = insert s (sort ss)

abbrev pub items : Items → List Json
items no_items = []
items (item v vs) = v ∷ items vs

-- `Array.isArray(raw) ? raw : [raw]`, none where the key is absent.
abbrev pub values_of : Option Json → Option (List Json)
values_of none = none
values_of (some undefined) = none
values_of (some null) = none
values_of (some (array vs)) = some (items vs)
values_of (some v) = some (v ∷ [])

abbrev pub values_under : Str → IdentityHistorySnapshot → Option (List Json)
values_under key s = elim s.content [ none ↦ none | some c ↦ values_of (lookup key c) ]

abbrev pub entries_at : Option ℕ → List Json → List VdxfHistoryEntry
entries_at h vs = map (λ v. record { height = h; value = v }) vs

abbrev pub is_last : Option Str → Str → Bool
is_last none s = false
is_last (some t) s = s === t

pub record HistoricalReview : Type 0 where
  pub height : Option ℕ
  pub job_hash : Option Str
  pub buyer : Option Str
  pub rating : Option Json
  pub timestamp : Option Json
  pub signature : Option Str
  pub raw : Fields

-- `typeof v === 'string' ? v : null`, and the same for numbers.
abbrev pub as_text : Option Json → Option Str
as_text (some (text s)) = some s
as_text _ = none

abbrev pub as_number : Option Json → Option Json
as_number (some (number n)) = some (number n)
as_number (some (other_number s)) = some (other_number s)
as_number _ = none

-- What `value[DATA_DESCRIPTOR_KEY].objectdata` makes of a wrapped value.
abbrev pub message_or : Json → Option Json → Json
message_or value (some (object od)) = elim (as_text (lookup (codes "message") od)) [
  | some m ↦ text m
  | none ↦ value
]
message_or value (some (text od)) = text od
message_or value _ = value

abbrev pub descriptor_or : Json → Option Json → Json
descriptor_or value (some (object dd)) = message_or value (lookup (codes "objectdata") dd)
descriptor_or value _ = value

abbrev pub unwrap_data_descriptor : Json → Json
unwrap_data_descriptor (object fs) = descriptor_or (object fs) (lookup data_descriptor_key fs)
unwrap_data_descriptor v = v

abbrev pub as_object : Option Json → Option Fields
as_object (some (object fs)) = some fs
as_object _ = none

-- `/^[0-9a-fA-F]+$/`, and an even length.
abbrev pub is_even_hex : Str → Bool
is_even_hex [] = false
is_even_hex (c ∷ cs) = all is_hex_digit (c ∷ cs) && (length (c ∷ cs) % 2 == 0)

module _ (stringify : List Json → Str) where
  -- One round of the loop over the ordered snapshots; `next` is the rest of it.
  abbrev pub collect_one :
      Option Str
      → Option ℕ
      → Option (List Json)
      → (Option Str → List VdxfHistoryEntry)
      → List VdxfHistoryEntry
  collect_one last h none next = next last
  collect_one last h (some vs) next =
      if is_last last (stringify vs)
      then next last
      else entries_at h vs ++ next (some (stringify vs))

  unfoldable pub collect : Str → Option Str → List IdentityHistorySnapshot → List VdxfHistoryEntry
  collect key last [] = []
  collect key last (s ∷ ss) =
      collect_one last (snapshot_height s) (values_under key s) (λ l. collect key l ss)

  unfoldable pub extract_vdxf_history : List IdentityHistorySnapshot → Str → List VdxfHistoryEntry
  unfolding sort collect
  extract_vdxf_history snapshots key = collect key none (sort snapshots)

module _ (parse : Str → Option Json) (from_hex : Str → Str) where
  abbrev pub decode_unwrapped : Json → Option Fields
  decode_unwrapped (text s) = as_object (parse (if is_even_hex s then from_hex s else s))
  decode_unwrapped (object fs) = some fs
  decode_unwrapped _ = none

  unfoldable pub decode_review_value : Json → Option Fields
  decode_review_value value = decode_unwrapped (unwrap_data_descriptor value)

abbrev pub review_of : Option ℕ → Fields → HistoricalReview
review_of height rec = record {
  height = height;
  job_hash = as_text (lookup (codes "jobHash") rec);
  buyer = as_text (lookup (codes "buyer") rec);
  rating = as_number (lookup (codes "rating") rec);
  timestamp = as_number (lookup (codes "timestamp") rec);
  signature = as_text (lookup (codes "signature") rec);
  raw = rec;
}

-- `if (jobHash)`: an empty hash counts as none.
abbrev pub key_of : Option Str → Option Str
key_of none = none
key_of (some []) = none
key_of (some (c ∷ cs)) = some (c ∷ cs)

abbrev pub keep_keyed :
    List Str
    → Option Str
    → HistoricalReview
    → (List Str → List HistoricalReview)
    → List HistoricalReview
keep_keyed seen none review next = review ∷ next seen
keep_keyed seen (some hash) review next =
    if has str_discrete hash seen then next seen else review ∷ next (hash ∷ seen)

-- One round of the loop over the entries, with the hashes seen.
abbrev pub keep_one :
    List Str → Option ℕ → Option Fields → (List Str → List HistoricalReview) → List HistoricalReview
keep_one seen height none next = next seen
keep_one seen height (some rec) next =
    keep_keyed seen (key_of (review_of height rec).job_hash) (review_of height rec) next

module _ (stringify : List Json → Str) (parse : Str → Option Json) (from_hex : Str → Str) where
  unfoldable pub keep_first : List Str → List VdxfHistoryEntry → List HistoricalReview
  keep_first seen [] = []
  keep_first seen (e ∷ es) =
      keep_one seen e.height (decode_review_value parse from_hex e.value) (λ s. keep_first s es)

  unfoldable pub decode_review_history : List IdentityHistorySnapshot → List HistoricalReview
  unfolding extract_vdxf_history keep_first
  decode_review_history snapshots =
      keep_first [] (extract_vdxf_history stringify snapshots review_record_key)
