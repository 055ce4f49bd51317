-- ===== src/Inbox/Batch.antt =====
-- `acceptInboxBatch` of src/agent.ts, one phase after another, with what src/inbox/vdxf-gate.ts finds
-- on the chain and the sizes of src/onboarding/vdxf.ts. `build` is the transaction builder, `none` where
-- it throws; the backend's answers are arguments.
use j41_sovagent_sdk.Prelude.{
  ℕ, ◌+◌, ◌/◌, ◌%◌, Bool, true, false, not, ◌&&◌, List, [], ◌∷◌, Option, none, some, ltb, length,
  all, if◌then◌else◌, ◌==◌, Str, codes, ◌===◌,
}
use j41_sovagent_sdk.Prelude.Json.{
  Json, undefined, null, text, array, object, Items, no_items, item, Fields, lookup, is_hex_digit,
}
use j41_sovagent_sdk.Inbox.{
  ItemType, Additions, Gated, passed, blocked, GateError, InboxItem, build_inbox_vdxf_additions,
  data_descriptor_key, review_record_key, as_array, is_truthy, is_nullish,
}

-- What the batch uses of the language: `JSON.stringify`, `JSON.parse`, `Buffer.from(s, 'hex')` read as
-- UTF-8, and `Buffer.byteLength`.
pub record Encoding : Type 0 where
  pub stringify : Json → Str
  pub parse : Str → Option Json
  pub decode_hex : Str → Str
  pub utf8_length : Str → ℕ

abbrev pub is_hex_text : Str → Bool
is_hex_text [] = false
is_hex_text (c ∷ cs) = all is_hex_digit (c ∷ cs) && (length (c ∷ cs) % 2) == 0

abbrev pub text_of : Option Json → Option Str
text_of (some (text s)) = some s
text_of _ = none

abbrev pub message_or : Fields → Option Json → Json
message_or od (some (text s)) = text s
message_or od _ = object od

abbrev pub object_data : Option Json → Json
object_data none = undefined
object_data (some (object od)) = message_or od (lookup (codes "message") od)
object_data (some v) = v

abbrev pub descriptor_data : Fields → Option Json → Json
descriptor_data fs none = object fs
descriptor_data fs (some (object dd)) = object_data (lookup (codes "objectdata") dd)
descriptor_data fs (some v) = if is_truthy v then undefined else object fs

abbrev pub unwrap : Json → Json
unwrap (object fs) = descriptor_data fs (lookup data_descriptor_key fs)
unwrap v = v

abbrev pub job_hash_of : Json → Option Str
job_hash_of (object fs) = text_of (lookup (codes "jobHash") fs)
job_hash_of _ = none

abbrev pub from_list : List Json → Items
from_list [] = no_items
from_list (v ∷ vs) = item v (from_list vs)

pub record Ref : Type 0 where
  pub id : Str
  pub type : ItemType

pub record Candidate : Type 0 where
  pub ref : Ref
  pub additions : Additions

pub data DeferReason : Type 0 where
  fetch_failed key_collision size_budget rebuild_failed : DeferReason

pub data RejectReason : Type 0 where
  type_mismatch too_large build_failed : RejectReason
  gate_failed : GateError → RejectReason

pub record Batch : Type 0 where
  pub txid : Option Str
  pub expiry_height : Option ℕ
  pub written : List Ref
  pub acked : List Str
  pub ack_failed : List Str
  pub rejected : List (Ref × RejectReason)
  pub deferred : List (Ref × DeferReason)
  pub already_done : List Str

abbrev pub empty_batch : Batch
empty_batch = record {
  txid = none;
  expiry_height = none;
  written = [];
  acked = [];
  ack_failed = [];
  rejected = [];
  deferred = [];
  already_done = [];
}

-- A fetched item: its status, the type that the backend gives it, if any, and its content.
pub record Detail : Type 0 where
  pub pending : Bool
  pub type : Option ItemType
  pub content : InboxItem

abbrev pub same_type : ItemType → ItemType → Bool
same_type ItemType.review ItemType.review = true
same_type ItemType.attestation ItemType.attestation = true
same_type ItemType.job_record ItemType.job_record = true
same_type _ _ = false

abbrev pub mismatches : ItemType → Option ItemType → Bool
mismatches t none = false
mismatches t (some u) = not (same_type t u)

-- Phase 1 for one item.
pub data Verdict : Type 0 where
  defer : Verdict
  done : Verdict
  reject : RejectReason → Verdict
  keep : Additions → Verdict

pub record Gathered : Type 0 where
  pub candidates : List Candidate
  pub batch : Batch

abbrev pub max_contentmultimap_value_bytes : ℕ
max_contentmultimap_value_bytes = 5000

module _ (encoding : Encoding) where
  -- `extractJobHash`
  unfoldable pub extract_job_hash : Json → Option Str
  extract_job_hash v = elim (unwrap v) [
    | text s ↦ elim (encoding.parse (if is_hex_text s then encoding.decode_hex s else s)) [
      | none ↦ none
      | some w ↦ job_hash_of w
    ]
    | w ↦ job_hash_of w
  ]

  -- `jobHashAlreadyOnChain`
  abbrev pub has_hash : Str → List Json → Bool
  has_hash h [] = false
  has_hash h (v ∷ vs) = elim (extract_job_hash v) [
    | none ↦ has_hash h vs
    | some g ↦ if g === h then true else has_hash h vs
  ]

  abbrev pub existing : Option Json → List Json
  existing none = []
  existing (some v) = if is_nullish v then [] else as_array v

  unfoldable pub job_hash_already_on_chain : Fields → Str → Option Str → Bool
  job_hash_already_on_chain on_chain key none = false
  job_hash_already_on_chain on_chain key (some []) = false
  job_hash_already_on_chain on_chain key (some (c ∷ cs)) =
      has_hash (c ∷ cs) (existing (lookup key on_chain))

  -- `valueAlreadyOnChain`
  abbrev pub same_values : List Json → Option Json → Bool
  same_values values none = false
  same_values values (some v) =
      if is_nullish v
      then false
      else if not (length (as_array v) == length values)
      then false
      else encoding.stringify (array (from_list (as_array v)))
        === encoding.stringify (array (from_list values))

  abbrev pub value_already_on_chain : Fields → Str → List Json → Bool
  value_already_on_chain on_chain key values = same_values values (lookup key on_chain)

  abbrev pub first_hash : List Json → Option Str
  first_hash [] = none
  first_hash (v ∷ vs) = extract_job_hash v

  unfoldable pub already_present : Fields → Additions → Bool
  already_present on_chain [] = true
  already_present on_chain ((k, vs) ∷ rest) =
      (if value_already_on_chain on_chain k vs
        then true
        else if not (k === review_record_key)
        then false
        else job_hash_already_on_chain on_chain k (first_hash vs))
      && already_present on_chain rest

  -- `contentmultimapValueByteSize`
  abbrev pub text_size : Str → ℕ
  text_size s = if is_hex_text s then length s / 2 else encoding.utf8_length s

  abbrev pub object_size : Json → Option Json → ℕ
  object_size v (some (object od)) = elim (text_of (lookup (codes "message") od)) [
    | some s ↦ encoding.utf8_length s
    | none ↦ encoding.utf8_length (encoding.stringify v)
  ]
  object_size v (some (text s)) = (length s + 1) / 2
  object_size v _ = encoding.utf8_length (encoding.stringify v)

  abbrev pub descriptor_size : Json → Option Json → ℕ
  descriptor_size v (some (object dd)) = object_size v (lookup (codes "objectdata") dd)
  descriptor_size v _ = encoding.utf8_length (encoding.stringify v)

  unfoldable pub value_byte_size : Json → ℕ
  value_byte_size (object fs) = descriptor_size (object fs) (lookup data_descriptor_key fs)
  value_byte_size (text s) = text_size s
  value_byte_size undefined = encoding.utf8_length (encoding.stringify (text []))
  value_byte_size null = encoding.utf8_length (encoding.stringify (text []))
  value_byte_size v = encoding.utf8_length (encoding.stringify v)

  abbrev pub sizes : List Json → ℕ
  sizes [] = 0
  sizes (v ∷ vs) = value_byte_size v + sizes vs

  -- `additionsByteSize`
  abbrev pub additions_byte_size : Additions → ℕ
  additions_byte_size [] = 0
  additions_byte_size ((k, vs) ∷ rest) = sizes vs + additions_byte_size rest

  -- `assertContentmultimapValueSizes` does not throw.
  abbrev pub sizes_ok : Additions → Bool
  sizes_ok entries =
      all (λ a. all (λ v. not (ltb max_contentmultimap_value_bytes (value_byte_size v))) a.1)
        entries

  abbrev pub gate_built : Gated Additions → Verdict
  gate_built (blocked e) = reject (gate_failed e)
  gate_built (passed entries) = if sizes_ok entries then keep entries else reject too_large

  unfoldable pub gate : (timestamp : ℕ) → Ref → Option Detail → Verdict
  gate timestamp ref none = defer
  gate timestamp ref (some d) =
      if not d.pending
      then done
      else if mismatches ref.type d.type
      then reject type_mismatch
      else gate_built (build_inbox_vdxf_additions encoding.stringify ref.type timestamp d.content)

  -- An item goes in front of the bucket that its verdict names.
  abbrev pub place : Ref → Verdict → Gathered → Gathered
  place ref defer g = record g {
    batch = record g.batch { deferred = (ref, fetch_failed) ∷ g.batch.deferred };
  }
  place ref done g = record g {
    batch = record g.batch { already_done = ref.id ∷ g.batch.already_done };
  }
  place ref (reject r) g = record g {
    batch = record g.batch { rejected = (ref, r) ∷ g.batch.rejected };
  }
  place ref (keep entries) g = record g {
    candidates = record { ref = ref; additions = entries } ∷ g.candidates;
  }

  -- Phase 1. The items stand with the answers of `getInboxItem`; `none` throws.
  unfoldable pub gather : (timestamp : ℕ) → List (Ref × Option Detail) → Gathered
  unfolding gate
  gather timestamp [] = record { candidates = []; batch = empty_batch }
  gather timestamp ((ref, answer) ∷ rest) =
      place ref (gate timestamp ref answer) (gather timestamp rest)
