-- ===== src/Wallet/Destination.antt =====
-- Where `sendCurrency` of src/agent.ts sends what it spends.
use mathlib.Core.Path.{subst}
use j41_sovagent_sdk.Prelude.{
  ℕ, ◌+◌, ◌<◌, ◌≡◌, refl, ap, sym, Bool, true, List, ◌∷◌, arith, All, All-mono, Str, Option, none,
  some, Option-cases, inl, inr, ◌⊎◌, filter, str_discrete,
}
use j41_sovagent_sdk.Payment.{
  Coins, IsExact, exact_below, default_fee, Utxo, Output, Transaction, PaymentResult, Result, ok,
  err, build_payment,
}
use j41_sovagent_sdk.Payment.Value.{IsBalanced, build_payment-Pays}
use j41_sovagent_sdk.Wallet.{
  Wallet, Platform, Sender, CurrencyRequest, conclude, finish, send_from, send_currency, resolve,
  positive, is_self, same_address, choose_source, choose_change, merge_utxos, compute_expiry_height,
  default_tx_expiry_delta,
}

-- The addresses of the sender.
abbrev pub IsOwn : Sender → Str → Type 0
IsOwn sender a = (a ≡ sender.r_address) ⊎ (sender.i_address ≡ some a)

-- The amount to the destination, what is left to the sender, and the miner's fee.
pub record Delivers (sender : Sender) (to : Str) (sats : ℕ) (t : Transaction) : Type 0 where
  pub balanced : IsBalanced default_fee t
  pub change : List Output
  pub requested : t.outputs ≡ record { to = to; satoshis = sats } ∷ change
  pub home : All (λ o. IsOwn sender o.to) change

same_address_lem : (a : Str) (i : Option Str) → same_address a i ≡ true → i ≡ some a
same_address_lem a none h = cc
same_address_lem a (some b) h = elim (str_discrete b a) [ yes e ↦ ap some e | no n ↦ ground arith ]

is_self-IsOwn : (sender : Sender) (a : Str) → is_self sender a ≡ true → IsOwn sender a
is_self-IsOwn sender a h = elim (str_discrete sender.r_address a) [
  | yes e ↦ inl (sym e)
  | no n ↦ inr (same_address_lem a sender.i_address (ground arith))
]

module _ (coins : Coins) (id_of : Transaction → Str) (show : ℕ → Str)
    (is_i_address : Str → Bool) where
  finish-built :
      (bound : Bool) (built : Result PaymentResult) (p : Platform) (w : Wallet) (t : Transaction)
      → (finish coins id_of show is_i_address bound built p w).1 ≡ some t
      → (r : PaymentResult) × (built ≡ ok r) × (r.transaction ≡ t)
  unfolding conclude
  finish-built bound (err e) p w t h = cc
  finish-built bound (ok r) p w t h = (r, refl, go p.broadcast h)
    where
      go :
          (b : Option Str)
          → (conclude coins id_of show is_i_address bound r b w).1 ≡ some t
          → r.transaction ≡ t
      go none e = cc
      go (some txid) e = cc

  send_from-Delivers :
      (sender : Sender) (r : CurrencyRequest coins id_of show is_i_address) (p : Platform)
      (to : Str) (merged : List Utxo) (w : Wallet) (t : Transaction)
      → IsExact coins
      → coins.to_sats r.amount + default_fee < exact_below
      → (send_from coins id_of show is_i_address sender r p to merged w).1 ≡ some t
      → Delivers sender to (coins.to_sats r.amount) t
  unfolding send_from
  send_from-Delivers sender r p to merged w t exact small h = elim (Option-cases p.chain_info) [
    | inl e ↦ ground arith
    | inr (tip, e) ↦
        let utxos = choose_source coins id_of show is_i_address r.source_address merged in
        let change = choose_change coins id_of show is_i_address sender r.change_address utxos in
        let own : is_self sender change ≡ true = ground arith in
        let (built, made, same) =
          finish-built true
            (build_payment coins id_of to r.amount utxos default_fee change
              (compute_expiry_height tip default_tx_expiry_delta))
            p w t (ground arith) in
        let pays =
          build_payment-Pays coins id_of to r.amount utxos default_fee change _ built exact small
            made in
        subst (Delivers sender to (coins.to_sats r.amount)) same (record {
          balanced = pays.balanced;
          change = pays.change;
          requested = pays.requested;
          home =
              All-mono _ _ pays.change
                (λ o here. subst (IsOwn sender) (sym here) (is_self-IsOwn sender change own))
                pays.back;
        })
  ]

  -- Every transaction that `sendCurrency` hands over pays the amount to the destination that it
  -- resolved and returns the rest, but for the fee, to an address of the sender's own. The condition
  -- is that satoshis below 2 ^ 51 survive the way to coins and back, and that the sum stays below that.
  pub send_currency-Delivers :
      (sender : Sender) (r : CurrencyRequest coins id_of show is_i_address) (p : Platform)
      (w : Wallet) (t : Transaction)
      → IsExact coins
      → coins.to_sats r.amount + default_fee < exact_below
      → (send_currency coins id_of show is_i_address sender r p w).1 ≡ some t
      → (to : Str) × (resolve coins id_of show is_i_address sender r p ≡ some to)
        × Delivers sender to (coins.to_sats r.amount) t
  unfolding send_currency
  send_currency-Delivers sender r p w t exact small h =
      elim (Option-cases (resolve coins id_of show is_i_address sender r p)) [
        | inl e ↦ ground arith
        | inr (to, e) ↦ elim (Option-cases p.utxos) [
          | inl f ↦ ground arith
          | inr (api, f) ↦
              let (w', merged) = merge_utxos show w (filter positive api) in
              (to, e, send_from-Delivers sender r p to merged w' t exact small (ground arith))
        ]
      ]
