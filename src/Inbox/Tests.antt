-- ===== src/Inbox/Tests.antt =====
-- A batch of src/agent.ts with three items: one is written, one has a key that is taken, one was
-- accepted before.
use j41_sovagent_sdk.Prelude.{
  occ, ◌≡◌, refl, true, false, List, [], ◌∷◌, arith, Option, none, some, Str, codes, str_discrete,
  str_member,
}
use j41_sovagent_sdk.Prelude.Maps.{get, put}
use j41_sovagent_sdk.Prelude.Json.{undefined, text, Fields, no_fields, field, lookup}
use j41_sovagent_sdk.Inbox.{
  review, Additions, passed, InboxItem, review_record_key, review_attestation_key, keep_allowed,
  build_inbox_vdxf_additions,
}
use j41_sovagent_sdk.Inbox.Batch.{
  Encoding, Ref, Detail, Batch, key_collision, gather, gate, already_present, value_byte_size,
  extract_job_hash, job_hash_already_on_chain,
}
use j41_sovagent_sdk.Inbox.Commit.{
  Backend, AckAnswer, accepted, returned, accept_inbox_batch, merge_items, build_merged,
}
use j41_sovagent_sdk.Inbox.Single.{Platform, announced, acknowledged, sent, accept_item}
use j41_sovagent_sdk.Inbox.Accepted.{IsSafe, accept_item-IsSafe}
use j41_sovagent_sdk.Inbox.Buckets.{placed, item_ids}
use j41_sovagent_sdk.Inbox.Partition.{IsAcknowledged, accept_inbox_batch-partition}

abbrev encoding : Encoding
encoding = record {
  stringify = λ v. codes "{}";
  parse = λ s. none;
  decode_hex = λ s. s;
  utf8_length = λ s. 2;
}

-- The platform slips in a key of another type.
abbrev tampered : Fields
tampered =
    field review_attestation_key (text (codes "evil"))
      (field review_record_key (text (codes "r")) no_fields)

abbrev content : InboxItem
content = record {
  vdxf_data = some tampered;
  sender_verus_id = undefined;
  job_hash = undefined;
  amount = undefined;
  currency = undefined;
  completed_at = undefined;
}

abbrev kept : Additions
kept = (review_record_key, text (codes "r") ∷ []) ∷ []

kept_lem : build_inbox_vdxf_additions encoding.stringify review 0 content ≡ passed kept
unfolding keep_allowed str_member str_discrete put
kept_lem = refl

abbrev ref : Str → Ref
ref id = record { id = id; type = review }

abbrev detail : Detail
detail = record { pending = true; type = some review; content = content }

abbrev items : List (Ref × Option Detail)
items =
    (ref (codes "a"), some detail)
    ∷ (ref (codes "b"), some detail)
    ∷ (ref (codes "c"), some (record detail { pending = false }))
    ∷ []

abbrev backend : Backend
backend = record {
  identity = some (true, no_fields);
  utxos = some (codes "u" ∷ []);
  expiry_height = some (some 300);
  broadcast = some (codes "t");
}

abbrev ack : Str → AckAnswer
ack id = accepted

abbrev build : Additions → Option Str
build entries = some (codes "ff")

abbrev out : Batch
out = record {
  txid = some (codes "t");
  expiry_height = some 300;
  written = ref (codes "a") ∷ [];
  acked = codes "a" ∷ [];
  ack_failed = [];
  rejected = [];
  deferred = (ref (codes "b"), key_collision) ∷ [];
  already_done = codes "c" ∷ [];
}

out_lem : accept_inbox_batch encoding build true 15000 0 backend ack items ≡ returned out
unfolding accept_inbox_batch job_hash_already_on_chain extract_job_hash gather gate merge_items
    build_merged already_present value_byte_size keep_allowed lookup get put str_member str_discrete
out_lem = refl

accept_inbox_batch-partition_example :
    (placed (codes "b") out ≡ occ (codes "b") (item_ids items)) × IsAcknowledged (codes "b") out
unfolding str_discrete
accept_inbox_batch-partition_example =
    accept_inbox_batch-partition (codes "b") encoding build 15000 backend ack true 0 items out
      (omega arith) out_lem

-- One item, accepted by itself.
abbrev answers : Platform
answers = record {
  item = some (record { status = codes "pending"; content = content });
  identity = some true;
  utxos = some (codes "u" ∷ []);
  height = some (some 100);
  build = λ entries expiry. some (codes "tx");
  broadcast = λ tx. some (codes "t");
  ack = true;
}

accepted_lem : accept_item encoding.stringify review true 0 (codes "a") answers ≡ (
  none,
  announced review (codes "a") (codes "t")
      ∷ acknowledged (codes "a") (codes "t")
      ∷ sent (codes "tx")
      ∷ [],
)
unfolding keep_allowed str_member str_discrete put
accepted_lem = refl

accept_item-IsSafe_example :
    IsSafe review
      (codes "a")
      answers
      (accept_item encoding.stringify review true 0 (codes "a") answers)
accept_item-IsSafe_example = accept_item-IsSafe encoding.stringify review true 0 (codes "a") answers
