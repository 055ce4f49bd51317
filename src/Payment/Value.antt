-- ===== src/Payment/Value.antt =====
-- Where the value of a payment goes: the two builders of src/tx/payment.ts create and lose nothing,
-- but for dust.
use mathlib.Core.List.{append-nil}
use mathlib.Core.Path.{subst}
use j41_sovagent_sdk.Prelude.{
  All, sym, true, ◌-◌, ℕ, ◌+◌, ◌≤◌, ◌<◌, ◌≡◌, refl, List, [], ◌∷◌, ◌++◌, arith, Str, Option, map,
  ltb, Bool-cases, inl, inr,
}
use j41_sovagent_sdk.Payment.{
  Coins, IsExact, exact_below, Utxo, Selection, Output, Transaction, PaymentResult, ok,
  on_selection, on_selection_ok, select_utxos, assemble, build_payment, build_multi_payment,
  PaymentOutput, to_output, total_satoshis, PaymentParams, dust,
}
use j41_sovagent_sdk.Payment.Fewest.{value, select_utxos_covers}

abbrev pub output_value : List Output → ℕ
output_value [] = 0
output_value (o ∷ os) = o.satoshis + output_value os

output_value-append :
    (xs ys : List Output) → output_value (xs ++ ys) ≡ output_value xs + output_value ys
output_value-append [] ys = omega arith
output_value-append (x ∷ xs) ys = omega (arith, output_value-append xs ys)

output_value-map :
    (coins : Coins) (os : List (PaymentOutput coins))
    → output_value (map (to_output coins) os) ≡ total_satoshis coins os
output_value-map coins [] = refl
output_value-map coins (o ∷ os) = omega (arith, output_value-map coins os)

-- The transaction spends what it pays out, and a miner's fee that is the one asked for, or up to the
-- dust limit more where the change would have been dust.
pub record IsBalanced (fee : ℕ) (t : Transaction) : Type 0 where
  pub miner : ℕ
  pub balance : value t.inputs ≡ output_value t.outputs + miner
  pub at_least : fee ≤ miner
  pub at_most : miner ≤ fee + dust

-- The requested outputs stand first, in order, and only change to the change address may follow; the
-- outputs reported as spent are the inputs.
pub record Pays (os : List Output) (fee : ℕ) (home : Str) (r : PaymentResult) : Type 0 where
  pub balanced : IsBalanced fee r.transaction
  pub change : List Output
  pub requested : r.transaction.outputs ≡ os ++ change
  pub back : All (λ o. o.to ≡ home) change
  pub spent : r.spent_utxos ≡ r.transaction.inputs

lt_of_ltb : (a b : ℕ) → ltb a b ≡ true → a < b
lt_of_ltb a b h = ground arith

module _ (coins : Coins) (id_of : Transaction → Str) where
  assemble-Pays :
      (s : Selection) (os : List Output) (total fee : ℕ) (change_address : Str) (expiry : Option ℕ)
      → s.total ≡ value s.selected
      → output_value os ≡ total
      → total + fee ≤ s.total
      → Pays os fee change_address (assemble coins id_of s os total fee change_address expiry)
  unfolding assemble
  assemble-Pays s os total fee change_address expiry sum outs enough =
      let x : Output = record { to = change_address; satoshis = s.total - total - fee } in
      elim (Bool-cases (ltb dust x.satoshis)) [
        | inl more ↦ rw more (record {
          balanced = record {
            miner = fee;
            balance =
                omega (arith, output_value-append os (x ∷ []), lt_of_ltb dust x.satoshis more);
            at_least = omega arith;
            at_most = omega arith;
          };
          change = x ∷ [];
          requested = refl;
          back = (refl, tt);
          spent = refl;
        })
        | inr small ↦ rw small (record {
          balanced = record {
            miner = s.total - total;
            balance = omega arith;
            at_least = omega arith;
            at_most = ground arith;
          };
          change = [];
          requested = sym (append-nil os);
          back = tt;
          spent = refl;
        })
      ]

  select_utxos_enough :
      (us : List Utxo) (n : ℕ) (s : Selection)
      → IsExact coins
      → n < exact_below
      → select_utxos coins us (coins.from_sats n) ≡ ok s
      → (s.total ≡ value s.selected) × (n ≤ s.total)
  select_utxos_enough us n s exact small e =
      let (sum, reached, _) = select_utxos_covers coins us (coins.from_sats n) s e in
      (sum, rw (exact n small) at reached)

  -- If a number of satoshis below 2 ^ 51 survives the way to coins and back, then a payment that is
  -- built pays the amount to its destination, returns only change, and neither creates nor loses value.
  pub build_payment-Pays :
      (to : Str) (amount : coins.Amount) (us : List Utxo) (fee : ℕ) (change_address : Str)
      (expiry : Option ℕ) (r : PaymentResult)
      → IsExact coins
      → coins.to_sats amount + fee < exact_below
      → build_payment coins id_of to amount us fee change_address expiry ≡ ok r
      → Pays (record { to = to; satoshis = coins.to_sats amount } ∷ []) fee change_address r
  unfolding build_payment
  build_payment-Pays to amount us fee change_address expiry r exact small e =
      let sats = coins.to_sats amount in
      let out : Output = record { to = to; satoshis = sats } in
      let done : on_selection (select_utxos coins us (coins.from_sats (sats + fee)))
            (λ s. assemble coins id_of s (out ∷ []) sats fee change_address expiry)
          ≡ ok r =
        ground arith in
      let (s, found, made) = on_selection_ok _ _ r done in
      let (sum, enough) = select_utxos_enough us (sats + fee) s exact small found in
      subst (Pays (out ∷ []) fee change_address) made
        (assemble-Pays s (out ∷ []) sats fee change_address expiry sum (omega arith) enough)

  -- The same of a payment with several outputs.
  pub build_multi_payment-Pays :
      (p : PaymentParams coins) (r : PaymentResult)
      → IsExact coins
      → total_satoshis coins p.outputs + p.fee < exact_below
      → build_multi_payment coins id_of p ≡ ok r
      → Pays (map (to_output coins) p.outputs) p.fee p.change_address r
  unfolding build_multi_payment
  build_multi_payment-Pays p r exact small e =
      let total = total_satoshis coins p.outputs in
      let outs = map (to_output coins) p.outputs in
      let done : on_selection (select_utxos coins p.utxos (coins.from_sats (total + p.fee)))
            (λ s. assemble coins id_of s outs total p.fee p.change_address p.expiry_height)
          ≡ ok r =
        ground arith in
      let (s, found, made) = on_selection_ok _ _ r done in
      let (sum, enough) = select_utxos_enough p.utxos (total + p.fee) s exact small found in
      subst (Pays outs p.fee p.change_address) made (
        assemble-Pays s outs total p.fee p.change_address p.expiry_height sum
          (output_value-map coins p.outputs) enough)
