-- ===== src/Inbox.antt =====
-- src/inbox/vdxf-gate.ts: what an inbox item may write to the agent's own identity. The keys are those
-- of src/onboarding/vdxf.ts. An error message is not kept, only which error it is.
pub mod Gate
pub mod Batch
pub mod Commit
pub mod Buckets
pub mod Partition
pub mod Single
pub mod Accepted
mod Tests
use j41_sovagent_sdk.Prelude.{
  ℕ, suc, ◌+◌, ◌/◌, ◌%◌, Bool, true, false, not, ◌&&◌, ◌||◌, List, [], ◌∷◌, Option, none, some, ltb,
  length, all, any, if◌then◌else◌, ◌==◌, Str, codes, ◌===◌, str_member, str_discrete,
}
use j41_sovagent_sdk.Prelude.Maps.{get, put, has}
use j41_sovagent_sdk.Prelude.Json.{
  Json, undefined, null, text, number, array, object, Items, no_items, item, Fields, no_fields,
  field, lookup, is_digit, between,
}

pub data ItemType : Type 0 where
  review attestation job_record : ItemType

abbrev pub review_record_key : Str
review_record_key = codes "iLbUN8TFvMZR9uaZYY1qBmL99bJE2uYdad"

abbrev pub review_attestation_key : Str
review_attestation_key = codes "i76fJX1DreN81CoRVJHSkrcqHq9nsLomYv"

abbrev pub job_record_key : Str
job_record_key = codes "iPsXc7vcBzAxyjFYfPAs9PUtMLh1EJPHSn"

abbrev pub data_descriptor_key : Str
data_descriptor_key = codes "i4GC1YGEVD21afWudGoFJVdnfjJ5XWnCQv"

-- `inboxAllowlistForType`
abbrev pub inbox_allowlist_for_type : ItemType → List Str
inbox_allowlist_for_type review = review_record_key ∷ []
inbox_allowlist_for_type attestation = review_attestation_key ∷ []
inbox_allowlist_for_type job_record = job_record_key ∷ []

pub data GateError : Type 0 where
  no_keys_left not_synthesized : GateError

pub data Gated (A : Type 0) : Type 0 where
  passed : A → Gated A
  blocked : GateError → Gated A

abbrev pub Additions : Type 0
Additions = List (Str × List Json)

-- `InboxItemLike`: the absent fields of the last five are `undefined`.
pub record InboxItem : Type 0 where
  pub vdxf_data : Option Fields
  pub sender_verus_id : Json
  pub job_hash : Json
  pub amount : Json
  pub currency : Json
  pub completed_at : Json

abbrev pub to_list : Items → List Json
to_list no_items = []
to_list (item v vs) = v ∷ to_list vs

abbrev pub as_array : Json → List Json
as_array (array vs) = to_list vs
as_array v = v ∷ []

-- `value == null`
abbrev pub is_nullish : Json → Bool
is_nullish undefined = true
is_nullish null = true
is_nullish v = false

-- The loop over the entries.
unfoldable pub keep_allowed : List Str → Fields → Additions → Additions
unfolding put
keep_allowed allow no_fields kept = kept
keep_allowed allow (field k v fs) kept =
    let skipped = keep_allowed allow fs kept in
    let taken = keep_allowed allow fs (put str_discrete k (as_array v) kept) in
    if is_nullish v then skipped else if not (str_member k allow) then skipped else taken

-- `makeSubDD`
abbrev pub make_sub_dd : Str → Str → Json
make_sub_dd label value = object (
    field data_descriptor_key
      (object (
        field (codes "version") (number 1) (
          field (codes "flags") (number 96) (
            field (codes "mimetype") (text (codes "text/plain")) (
              field (codes "objectdata") (object (field (codes "message") (text value) no_fields))
                (field (codes "label") (text label) no_fields))))))
      no_fields)

-- JavaScript's truth of a value.
abbrev pub is_truthy : Json → Bool
is_truthy undefined = false
is_truthy null = false
is_truthy (Json.boolean b) = b
is_truthy (number n) = not (n == 0)
is_truthy (text []) = false
is_truthy v = true

abbrev pub field_if : Bool → Str → Json → Fields → Fields
field_if b k v fs = if b then field k v fs else fs

abbrev pub job_record_fields : (timestamp : ℕ) → InboxItem → Fields
job_record_fields timestamp i = field (codes "timestamp") (number timestamp) (
    field_if (is_truthy i.sender_verus_id) (codes "buyer") i.sender_verus_id (
      field_if (is_truthy i.job_hash) (codes "jobHash") i.job_hash (
        field_if (not (is_nullish i.amount)) (codes "amount") i.amount (
          field_if (is_truthy i.currency) (codes "currency") i.currency
            (field_if (is_truthy i.completed_at) (codes "completedAt") i.completed_at no_fields)))))

abbrev pub non_empty : Additions → Gated Additions
non_empty [] = blocked no_keys_left
non_empty (a ∷ rest) = passed (a ∷ rest)

module _ (stringify : Json → Str) where
  -- Without a payload.
  abbrev pub synthesize : ItemType → (timestamp : ℕ) → InboxItem → Gated Additions
  synthesize job_record timestamp i = passed (
      (
        job_record_key,
        make_sub_dd job_record_key (stringify (object (job_record_fields timestamp i))) ∷ [],
      )
      ∷ [])
  synthesize _ timestamp i = blocked not_synthesized

  abbrev pub gate_data : ItemType → (timestamp : ℕ) → InboxItem → Option Fields → Gated Additions
  gate_data type timestamp i none = synthesize type timestamp i
  gate_data type timestamp i (some no_fields) = synthesize type timestamp i
  gate_data type timestamp i (some (field k v fs)) =
      non_empty (keep_allowed (inbox_allowlist_for_type type) (field k v fs) [])

  -- `buildInboxVdxfAdditions`, at the time `timestamp` in seconds.
  abbrev pub build_inbox_vdxf_additions : ItemType → (timestamp : ℕ) → InboxItem → Gated Additions
  build_inbox_vdxf_additions type timestamp i = gate_data type timestamp i i.vdxf_data
