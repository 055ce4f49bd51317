-- ===== src/Payment/Inputs.antt =====
-- The inputs of a transaction that src/tx/payment.ts builds.
use mathlib.Core.List.{Perm}
use mathlib.Core.Path.{subst}
use j41_sovagent_sdk.Prelude.{
  ℕ, ◌+◌, ◌-◌, ◌≡◌, refl, List, [], ◌∷◌, ◌++◌, arith, Str, Option, map, ltb, Bool-cases, inl, inr,
}
use j41_sovagent_sdk.Payment.{
  Coins, Utxo, Selection, Output, Transaction, PaymentResult, ok, on_selection, on_selection_ok,
  select_utxos, assemble, build_payment, build_multi_payment, to_output, total_satoshis,
  PaymentParams, dust,
}
use j41_sovagent_sdk.Payment.Fewest.{select_utxos_covers}

-- The inputs are some of the outputs that were offered, none of them twice, and all that is reported
-- as spent.
pub record Drawn (us : List Utxo) (r : PaymentResult) : Type 0 where
  pub rest : List Utxo
  pub part : Perm (r.transaction.inputs ++ rest) us
  pub spent : r.spent_utxos ≡ r.transaction.inputs

module _ (coins : Coins) (id_of : Transaction → Str) where
  assemble-Drawn :
      (us rest : List Utxo) (s : Selection) (os : List Output) (total fee : ℕ)
      (change_address : Str) (expiry : Option ℕ)
      → Perm (s.selected ++ rest) us
      → Drawn us (assemble coins id_of s os total fee change_address expiry)
  unfolding assemble
  assemble-Drawn us rest s os total fee change_address expiry p =
      elim (Bool-cases (ltb dust (s.total - total - fee))) [
        | inl more ↦ rw more (record { rest = rest; part = p; spent = refl })
        | inr small ↦ rw small (record { rest = rest; part = p; spent = refl })
      ]

  pub build_payment-Drawn :
      (to : Str) (amount : coins.Amount) (us : List Utxo) (fee : ℕ) (change_address : Str)
      (expiry : Option ℕ) (r : PaymentResult)
      → build_payment coins id_of to amount us fee change_address expiry ≡ ok r
      → Drawn us r
  unfolding build_payment
  build_payment-Drawn to amount us fee change_address expiry r e =
      let sats = coins.to_sats amount in
      let out : Output = record { to = to; satoshis = sats } in
      let done : on_selection (select_utxos coins us (coins.from_sats (sats + fee)))
            (λ s. assemble coins id_of s (out ∷ []) sats fee change_address expiry)
          ≡ ok r =
        ground arith in
      let (s, found, made) = on_selection_ok _ _ r done in
      let (rest, part) = (select_utxos_covers coins us (coins.from_sats (sats + fee)) s found).2 in
      subst (Drawn us) made
        (assemble-Drawn us rest s (out ∷ []) sats fee change_address expiry part)

  pub build_multi_payment-Drawn :
      (p : PaymentParams coins) (r : PaymentResult)
      → build_multi_payment coins id_of p ≡ ok r
      → Drawn p.utxos r
  unfolding build_multi_payment
  build_multi_payment-Drawn p r e =
      let total = total_satoshis coins p.outputs in
      let outs = map (to_output coins) p.outputs in
      let done : on_selection (select_utxos coins p.utxos (coins.from_sats (total + p.fee)))
            (λ s. assemble coins id_of s outs total p.fee p.change_address p.expiry_height)
          ≡ ok r =
        ground arith in
      let (s, found, made) = on_selection_ok _ _ r done in
      let (rest, part) =
        (select_utxos_covers coins p.utxos (coins.from_sats (total + p.fee)) s found).2 in
      subst (Drawn p.utxos) made
        (assemble-Drawn p.utxos rest s outs total p.fee p.change_address p.expiry_height part)
