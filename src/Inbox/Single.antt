-- ===== src/Inbox/Single.antt =====
-- `acceptReview`, `acceptAttestationTuple` and `acceptJobRecord` of src/agent.ts: one inbox item in one
-- identity update. What the platform answers is an argument; console output is dropped.
use j41_sovagent_sdk.Prelude.{
  ℕ, Bool, true, false, List, [], ◌∷◌, Option, none, some, Str, codes, ◌===◌, if◌then◌else◌,
}
use j41_sovagent_sdk.Prelude.Json.{Json}
use j41_sovagent_sdk.Inbox.{
  ItemType, review, attestation, job_record, Gated, passed, blocked, Additions, InboxItem,
  build_inbox_vdxf_additions,
}
use j41_sovagent_sdk.Wallet.{compute_expiry_height}

pub data AcceptError : Type 0 where
  no_key item_failed identity_failed no_prev_output no_utxos gate_failed chain_info_failed :
      AcceptError
  build_failed broadcast_failed ack_failed : AcceptError

pub record Item : Type 0 where
  pub status : Str
  pub content : InboxItem

-- A request that throws is `none`; `identity` says whether there is a previous output, `height` may
-- be no number, and `build` is the transaction library.
pub record Platform : Type 0 where
  pub item : Option Item
  pub identity : Option Bool
  pub utxos : Option (List Str)
  pub height : Option (Option ℕ)
  pub build : Additions → Option ℕ → Option Str
  pub broadcast : Str → Option Str
  pub ack : Bool

-- What is done outside, the newest first.
pub data Effect : Type 0 where
  sent : (tx : Str) → Effect
  acknowledged : (id txid : Str) → Effect
  announced : ItemType → (id txid : Str) → Effect

-- The error that is thrown, if one is.
abbrev pub Accept : Type 0
Accept = Option AcceptError × List Effect

abbrev pub identity_expiry_delta : ℕ
identity_expiry_delta = 200

abbrev pub acknowledge_sent : ItemType → Str → Platform → (tx txid : Str) → Accept
acknowledge_sent type id p tx txid =
    if p.ack
    then (none, announced type id txid ∷ acknowledged id txid ∷ sent tx ∷ [])
    else (some ack_failed, sent tx ∷ [])

abbrev pub on_broadcast : ItemType → Str → Platform → Str → Option Str → Accept
on_broadcast type id p tx none = (some broadcast_failed, sent tx ∷ [])
on_broadcast type id p tx (some txid) = acknowledge_sent type id p tx txid

abbrev pub on_built : ItemType → Str → Platform → Option Str → Accept
on_built type id p none = (some build_failed, [])
on_built type id p (some tx) = on_broadcast type id p tx (p.broadcast tx)

abbrev pub with_tip : ItemType → Str → Platform → Additions → Option (Option ℕ) → Accept
with_tip type id p entries none = (some chain_info_failed, [])
with_tip type id p entries (some tip) =
    on_built type id p (p.build entries (compute_expiry_height tip identity_expiry_delta))

abbrev pub on_gated : ItemType → Str → Platform → Gated Additions → Accept
on_gated type id p (blocked e) = (some gate_failed, [])
on_gated type id p (passed entries) = with_tip type id p entries p.height

module _ (stringify : Json → Str) where
  abbrev pub with_wallet :
      ItemType → (now : ℕ) → Str → Platform → Item → Option Bool → Option (List Str) → Accept
  with_wallet type now id p i none utxos = (some identity_failed, [])
  with_wallet type now id p i (some b) none = (some identity_failed, [])
  with_wallet type now id p i (some false) (some utxos) = (some no_prev_output, [])
  with_wallet type now id p i (some true) (some []) = (some no_utxos, [])
  with_wallet type now id p i (some true) (some (u ∷ us)) =
      on_gated type id p (build_inbox_vdxf_additions stringify type now i.content)

  -- An item that is not pending is skipped.
  abbrev pub on_item : ItemType → (now : ℕ) → Str → Platform → Option Item → Accept
  on_item type now id p none = (some item_failed, [])
  on_item type now id p (some i) =
      if i.status === codes "pending"
      then with_wallet type now id p i p.identity p.utxos
      else (none, [])

  abbrev pub accept_item : ItemType → (can_sign : Bool) → (now : ℕ) → Str → Platform → Accept
  accept_item type can_sign now id p =
      if can_sign then on_item type now id p p.item else (some no_key, [])

  abbrev pub accept_review : (can_sign : Bool) → (now : ℕ) → Str → Platform → Accept
  accept_review = accept_item review

  abbrev pub accept_attestation_tuple : (can_sign : Bool) → (now : ℕ) → Str → Platform → Accept
  accept_attestation_tuple = accept_item attestation

  abbrev pub accept_job_record : (can_sign : Bool) → (now : ℕ) → Str → Platform → Accept
  accept_job_record = accept_item job_record
