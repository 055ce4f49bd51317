-- ===== src/Inbox/Accepted.antt =====
-- What accepting one inbox item, as src/agent.ts does, may do outside.
use j41_sovagent_sdk.Prelude.{
  ℕ, ◌≡◌, refl, Bool, true, false, List, [], ◌∷◌, Option, none, some, Str, codes, ◌===◌,
  if◌then◌else◌,
}
use j41_sovagent_sdk.Prelude.Json.{Json}
use j41_sovagent_sdk.Inbox.{
  ItemType, Gated, passed, blocked, Additions, build_inbox_vdxf_additions, inbox_allowlist_for_type,
}
use j41_sovagent_sdk.Inbox.Gate.{IsWithin, build_inbox_vdxf_additions-IsWithin}
use j41_sovagent_sdk.Wallet.{compute_expiry_height}
use j41_sovagent_sdk.Inbox.Single.{
  AcceptError, no_key, item_failed, identity_failed, no_prev_output, no_utxos, gate_failed,
  chain_info_failed, build_failed, broadcast_failed, ack_failed, Item, Platform, sent, acknowledged,
  announced, Accept, identity_expiry_delta, on_broadcast, on_built, with_tip, on_gated, with_wallet,
  on_item, accept_item,
}

-- The transaction writes only keys of the type, to the pending item.
pub record IsGated (type : ItemType) (p : Platform) (tx : Str) : Type 0 where
  pub item : Item
  pub is_item : p.item ≡ some item
  pub is_pending : (item.status === codes "pending") ≡ true
  pub entries : Additions
  pub is_within : IsWithin (inbox_allowlist_for_type type) entries
  pub tip : Option ℕ
  pub is_built : p.build entries (compute_expiry_height tip identity_expiry_delta) ≡ some tx

-- What an accept may do outside: nothing, a transaction whose broadcast or acknowledgement fails, or all
-- three with the broadcast's id; it returns only when it did all or the item is not pending.
pub data IsSafe (type : ItemType) (id : Str) (p : Platform) : Accept → Type 0 where
  skipped :
      (i : Item)
      → p.item ≡ some i
      → (i.status === codes "pending") ≡ false
      → IsSafe type id p (none, [])
  untouched : (e : AcceptError) → IsSafe type id p (some e, [])
  half_done :
      (e : AcceptError) (tx : Str) → IsGated type p tx → IsSafe type id p (some e, sent tx ∷ [])
  done :
      (tx txid : Str)
      → IsGated type p tx
      → p.broadcast tx ≡ some txid
      → IsSafe type id p (none, announced type id txid ∷ acknowledged id txid ∷ sent tx ∷ [])

module _ (stringify : Json → Str) where
  on_broadcast-IsSafe :
      (type : ItemType) (id : Str) (p : Platform) (tx : Str) (o : Option Str)
      → p.broadcast tx ≡ o
      → IsGated type p tx
      → IsSafe type id p (on_broadcast type id p tx o)
  on_broadcast-IsSafe type id p tx none e g = half_done broadcast_failed tx g
  on_broadcast-IsSafe type id p tx (some txid) e g = go p.ack
    where
      go :
          (b : Bool)
          → IsSafe type id p (
              if b
              then (none, announced type id txid ∷ acknowledged id txid ∷ sent tx ∷ [])
              else (some ack_failed, sent tx ∷ []))
      go true = done tx txid g e
      go false = half_done ack_failed tx g

  on_built-IsSafe :
      (type : ItemType) (id : Str) (p : Platform) (o : Option Str)
      → ((tx : Str) → o ≡ some tx → IsGated type p tx)
      → IsSafe type id p (on_built type id p o)
  on_built-IsSafe type id p none g = untouched build_failed
  on_built-IsSafe type id p (some tx) g =
      on_broadcast-IsSafe type id p tx (p.broadcast tx) refl (g tx refl)

  on_gated-IsSafe :
      (type : ItemType) (now : ℕ) (id : Str) (p : Platform) (i : Item) (g : Gated Additions)
      → p.item ≡ some i
      → (i.status === codes "pending") ≡ true
      → build_inbox_vdxf_additions stringify type now i.content ≡ g
      → IsSafe type id p (on_gated type id p g)
  on_gated-IsSafe type now id p i (blocked x) e s h = untouched gate_failed
  on_gated-IsSafe type now id p i (passed entries) e s h = go p.height
    where
      go : (o : Option (Option ℕ)) → IsSafe type id p (with_tip type id p entries o)
      go none = untouched chain_info_failed
      go (some tip) =
          on_built-IsSafe type id p
            (p.build entries (compute_expiry_height tip identity_expiry_delta))
            (λ tx b. record {
              item = i;
              is_item = e;
              is_pending = s;
              entries = entries;
              is_within =
                  build_inbox_vdxf_additions-IsWithin stringify type now i.content entries h;
              tip = tip;
              is_built = b;
            })

  with_wallet-IsSafe :
      (type : ItemType) (now : ℕ) (id : Str) (p : Platform) (i : Item) (identity : Option Bool)
      (utxos : Option (List Str))
      → p.item ≡ some i
      → (i.status === codes "pending") ≡ true
      → IsSafe type id p (with_wallet stringify type now id p i identity utxos)
  with_wallet-IsSafe type now id p i none utxos e s = untouched identity_failed
  with_wallet-IsSafe type now id p i (some b) none e s = untouched identity_failed
  with_wallet-IsSafe type now id p i (some false) (some utxos) e s = untouched no_prev_output
  with_wallet-IsSafe type now id p i (some true) (some []) e s = untouched no_utxos
  with_wallet-IsSafe type now id p i (some true) (some (u ∷ us)) e s =
      on_gated-IsSafe type now id p i (build_inbox_vdxf_additions stringify type now i.content) e s
        refl

  on_item-IsSafe :
      (type : ItemType) (now : ℕ) (id : Str) (p : Platform) (o : Option Item)
      → p.item ≡ o
      → IsSafe type id p (on_item stringify type now id p o)
  on_item-IsSafe type now id p none e = untouched item_failed
  on_item-IsSafe type now id p (some i) e = go (i.status === codes "pending") refl
    where
      go :
          (b : Bool)
          → (i.status === codes "pending") ≡ b
          → IsSafe type id p
              (if b then with_wallet stringify type now id p i p.identity p.utxos else (none, []))
      go true s = with_wallet-IsSafe type now id p i p.identity p.utxos e s
      go false s = skipped i e s

  -- An accept of one item hands over one transaction at most, and that only for a pending item, with keys
  -- of the item's type; it acknowledges the item only with the id of that broadcast, and returns only
  -- when it did so or the item is not pending.
  pub accept_item-IsSafe :
      (type : ItemType) (can_sign : Bool) (now : ℕ) (id : Str) (p : Platform)
      → IsSafe type id p (accept_item stringify type can_sign now id p)
  accept_item-IsSafe type true now id p = on_item-IsSafe type now id p p.item refl
  accept_item-IsSafe type false now id p = untouched no_key
