-- ===== src/Wallet.antt =====
-- The payments of src/agent.ts: `mergeUtxos`, `sendCurrency` and `sendMultiPayment` over the two
-- fields that chain unconfirmed outputs. `serializeSend` runs one send after another, so a send is
-- one function from the wallet to the wallet; what the platform answers is its argument, and `none`
-- is a request that throws.
mod Fresh
pub mod NoDoubleSpend
pub mod Destination
mod Tests
use j41_sovagent_sdk.Prelude.{
  ℕ, ◌+◌, Bool, true, false, not, ◌&&◌, ◌||◌, List, [], ◌∷◌, ◌++◌, map, Option, none, some, length,
  evict, ltb, filter, all, any, ◌==◌, if◌then◌else◌, Str, codes, ◌===◌, str_discrete,
}
use j41_sovagent_sdk.Prelude.Maps.{has, add}
use j41_sovagent_sdk.Payment.{
  err, Result, PaymentOutput, build_payment, build_multi_payment, default_fee, PaymentResult, ok,
  Coins, Utxo, Transaction, Error,
}

pub record Wallet : Type 0 where
  pub spent : List Str
  pub pending_change : List Utxo

abbrev pub empty : Wallet
empty = record { spent = []; pending_change = [] }

abbrev pub max_spent_utxos : ℕ
max_spent_utxos = 10000

abbrev pub max_pending_change : ℕ
max_pending_change = 1000

abbrev pub default_tx_expiry_delta : ℕ
default_tx_expiry_delta = 60

-- `computeExpiryHeight`
abbrev pub compute_expiry_height : Option ℕ → ℕ → Option ℕ
compute_expiry_height none delta = none
compute_expiry_height (some tip) delta = some (tip + delta)

unfoldable pub add_all : List Str → List Str → List Str
add_all [] xs = xs
add_all (k ∷ ks) xs = add_all ks (add str_discrete k xs)

module _ (show : ℕ → Str) where
  -- `${u.txid}:${u.vout}`
  abbrev pub key : Utxo → Str
  key u = u.txid ++ (codes ":" ++ show u.vout)

  abbrev pub keys : List Utxo → List Str
  keys = map key

  -- The loop of `mergeUtxos`.
  pub unspent : List Str → List Str → List Utxo → List Utxo
  unspent spent seen [] = []
  unspent spent seen (u ∷ us) =
      let rest = unspent spent (add str_discrete (key u) seen) us in
      let skipped = unspent spent seen us in
      if has str_discrete (key u) spent || has str_discrete (key u) seen then skipped else u ∷ rest

  abbrev pub still_pending : List Str → List Str → Utxo → Bool
  still_pending spent api_keys u =
      not (has str_discrete (key u) spent) && not (has str_discrete (key u) api_keys)

  unfoldable pub merge_utxos : Wallet → List Utxo → Wallet × List Utxo
  unfolding unspent
  merge_utxos w api =
      let pending = filter (still_pending w.spent (keys api)) w.pending_change in
      (record w { pending_change = pending }, unspent w.spent [] (api ++ pending))

-- Who sends: what `J41Agent` holds, and what the key library says of it.
pub record Sender : Type 0 where
  pub has_wif : Bool
  pub r_address : Str
  pub i_address : Option Str
  -- `J41_TRUST_PLATFORM_RESOLUTION === '1'`
  pub env_trust : Bool

pub data SendError : Type 0 where
  no_wif login_failed untrusted_resolution utxos_failed wallet_empty no_source no_i_address :
      SendError
  foreign_change : Str → SendError
  chain_info_failed : SendError
  build_failed : Error → SendError
  broadcast_failed : SendError

pub data Sent : Type 0 where
  sent : (txid : Str) → Sent
  failed : SendError → Sent

-- The wallet after a call, the transaction that it broadcast, if it came so far, and its outcome.
abbrev pub Attempt : Type 0
Attempt = Wallet × Option Transaction × Sent

abbrev pub is_empty {ℓ} : {A : Type ℓ} → List A → Bool
is_empty [] = true
is_empty (x ∷ xs) = false

-- The platform's answers to one send. An address lookup may throw, or find nothing.
pub record Platform : Type 0 where
  pub login : Bool
  pub payment_address : Option (Option Str)
  pub utxos : Option (List Utxo)
  pub chain_info : Option (Option ℕ)
  pub broadcast : Option Str

-- `to.includes('@') || to.includes('.')`
abbrev pub is_verus_id : Str → Bool
is_verus_id to = any (λ ch. ch == b'@' || ch == b'.') to

abbrev pub same_address : Str → Option Str → Bool
same_address a none = false
same_address a (some b) = b === a

abbrev pub positive : Utxo → Bool
positive u = ltb 0 u.satoshis

-- `selfAddrs.has(changeAddress)`
abbrev pub is_self : Sender → Str → Bool
is_self sender a = sender.r_address === a || same_address a sender.i_address

module _ (coins : Coins) (id_of : Transaction → Str) (show : ℕ → Str)
    (is_i_address : Str → Bool) where
  pub record CurrencyRequest : Type 0 where
    pub to : Str
    pub amount : coins.Amount
    pub change_address : Option Str
    pub source_address : Option Str
    pub trust_platform_resolution : Option Bool

  abbrev pub trusts : Sender → CurrencyRequest → Bool
  trusts sender r = elim r.trust_platform_resolution [ none ↦ sender.env_trust | some b ↦ b ]

  -- The destination, `none` where the resolution is refused.
  unfoldable pub resolve : Sender → CurrencyRequest → Platform → Option Str
  resolve sender r p =
      if not (is_verus_id r.to)
      then some r.to
      else if not (trusts sender r)
      then none
      else some (elim p.payment_address [
        | none ↦ r.to
        | some none ↦ r.to
        | some (some []) ↦ r.to
        | some (some (c ∷ cs)) ↦ c ∷ cs
      ])

  abbrev pub from_i_address : Utxo → Bool
  from_i_address u = elim u.address [ none ↦ false | some a ↦ is_i_address a ]

  abbrev pub default_change : Sender → List Utxo → Str
  default_change sender utxos =
      if all from_i_address utxos
      then elim sender.i_address [ none ↦ sender.r_address | some i ↦ i ]
      else sender.r_address

  -- An empty address is no address.
  unfoldable pub choose_change : Sender → Option Str → List Utxo → Str
  choose_change sender none utxos = default_change sender utxos
  choose_change sender (some []) utxos = default_change sender utxos
  choose_change sender (some (c ∷ cs)) utxos = c ∷ cs

  unfoldable pub choose_source : Option Str → List Utxo → List Utxo
  choose_source none utxos = utxos
  choose_source (some []) utxos = utxos
  choose_source (some (c ∷ cs)) utxos = filter (λ u. same_address (c ∷ cs) u.address) utxos

  -- From the broadcast on. The inputs were marked before it; the change carries the broadcast's id.
  abbrev pub push_change : Str → Option Utxo → List Utxo → List Utxo
  push_change txid none pending = pending
  push_change txid (some u) pending = pending ++ record u { txid = txid } ∷ []

  unfoldable pub conclude : (bound : Bool) → PaymentResult → Option Str → Wallet → Attempt
  unfolding evict add_all
  conclude bound built broadcast w =
      let marked = add_all (keys show built.spent_utxos) w.spent in
      let w' = record w { spent = if bound then evict max_spent_utxos marked else marked } in
      elim broadcast [
        | none ↦ (w', some built.transaction, failed broadcast_failed)
        | some txid ↦
            let pending = push_change txid built.change_utxo w'.pending_change in
            (
              record w' {
                pending_change = if bound then evict max_pending_change pending else pending;
              },
              some built.transaction,
              sent txid,
            )
      ]

  abbrev pub refuse : Wallet → SendError → Attempt
  refuse w e = (w, none, failed e)

  abbrev pub finish : Bool → Result PaymentResult → Platform → Wallet → Attempt
  finish bound (err e) p w = refuse w (build_failed e)
  finish bound (ok built) p w = conclude bound built p.broadcast w

  -- `sendCurrency` once the destination is known and the outputs are merged.
  unfoldable pub send_from :
      Sender → CurrencyRequest → Platform → Str → List Utxo → Wallet → Attempt
  unfolding conclude choose_change choose_source
  send_from sender r p to merged w =
      let utxos = choose_source r.source_address merged in
      let change = choose_change sender r.change_address utxos in
      if is_empty merged
      then refuse w wallet_empty
      else if is_empty utxos
      then refuse w no_source
      else if not (is_self sender change)
      then refuse w (foreign_change change)
      else elim p.chain_info [
        | none ↦ refuse w chain_info_failed
        | some tip ↦
            finish true
              (build_payment coins id_of to r.amount utxos default_fee change
                (compute_expiry_height tip default_tx_expiry_delta))
              p w
      ]

  unfoldable pub send_currency : Sender → CurrencyRequest → Platform → Wallet → Attempt
  unfolding send_from merge_utxos resolve
  send_currency sender r p w =
      if not sender.has_wif
      then refuse w no_wif
      else if not p.login
      then refuse w login_failed
      else elim (resolve sender r p) [
        | none ↦ refuse w untrusted_resolution
        | some to ↦ elim p.utxos [
          | none ↦ refuse w utxos_failed
          | some api ↦
              let (w', merged) = merge_utxos show w (filter positive api) in
              send_from sender r p to merged w'
        ]
      ]

  unfoldable pub send_multi_payment :
      Sender → List (PaymentOutput coins) → Platform → Wallet → Attempt
  unfolding conclude merge_utxos
  send_multi_payment sender outputs p w =
      if not sender.has_wif
      then refuse w no_wif
      else if not p.login
      then refuse w login_failed
      else elim p.utxos [
        | none ↦ refuse w utxos_failed
        | some api ↦
            let (w', merged) = merge_utxos show w (filter positive api) in
            if is_empty merged then refuse w' wallet_empty else elim p.chain_info [
              | none ↦ refuse w' chain_info_failed
              | some tip ↦
                  finish false
                    (build_multi_payment coins id_of (record {
                      outputs = outputs;
                      utxos = merged;
                      fee = default_fee;
                      change_address = sender.r_address;
                      expiry_height = compute_expiry_height tip default_tx_expiry_delta;
                    }))
                    p w'
            ]
      ]

  -- A history of sends, one after another, and the transactions that were handed to the platform.
  pub data Send : Type 0 where
    currency : Sender → CurrencyRequest → Platform → Send
    multi : Sender → List (PaymentOutput coins) → Platform → Send

  unfoldable pub attempt : Send → Wallet → Attempt
  unfolding send_currency send_multi_payment
  attempt (currency sender r p) w = send_currency sender r p w
  attempt (multi sender outputs p) w = send_multi_payment sender outputs p w

  abbrev pub transfer_request : (to amount_source : Str) → coins.Amount → CurrencyRequest
  transfer_request to source amount = record {
    to = to;
    amount = amount;
    change_address = some source;
    source_address = some source;
    trust_platform_resolution = none;
  }

  -- `transferFunds`
  unfoldable pub transfer_funds :
      (to_identity : Bool) → Sender → coins.Amount → Platform → Wallet → Attempt
  unfolding send_currency
  transfer_funds to_identity sender amount p w =
      if not sender.has_wif then refuse w no_wif else elim sender.i_address [
        | none ↦ refuse w no_i_address
        | some i ↦
            send_currency sender
              (if to_identity
                then transfer_request i sender.r_address amount
                else transfer_request sender.r_address i amount)
              p w
      ]

  abbrev pub input_keys : Option Transaction → List Str
  input_keys none = []
  input_keys (some t) = keys show t.inputs

  -- The wallet after the sends, and every input that any of them handed to the platform.
  unfoldable pub run_sends : List Send → Wallet → Wallet × List Str
  run_sends [] w = (w, [])
  run_sends (s ∷ ss) w =
      let a = attempt s w in let rest = run_sends ss a.0 in (rest.0, input_keys a.1 ++ rest.1)
