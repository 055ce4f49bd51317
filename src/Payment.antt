-- ===== src/Payment.antt =====
-- src/tx/payment.ts: coin selection and the value side of the two transaction builders. Amounts in
-- VRSC are JavaScript floats: the interface `Coins` is what the builders use of them. Keys, scripts,
-- signing and serialisation are the transaction library's; it also gives a transaction its id.
pub mod Fewest
pub mod Value
pub mod Inputs
pub mod Tests
use j41_sovagent_sdk.Prelude.{
  refl, ℕ, ◌+◌, ◌-◌, ◌^◌, ◌<◌, ◌≡◌, Bool, true, false, not, List, [], ◌∷◌, ◌++◌, map, Option, none,
  some, ltb, leb, length, if◌then◌else◌, Str,
}

pub record Coins : Type 1 where
  pub Amount : Type 0
  -- `Number.isFinite(a) && a > 0`
  pub is_payable : Amount → Bool
  -- `Math.round(a * SATS_PER_COIN)` and `n / SATS_PER_COIN`
  pub to_sats : Amount → ℕ
  pub from_sats : ℕ → Amount

-- Below this a double carries a number of satoshis to coins and back: two roundings, each of at most
-- 2 ^ -53 of the value, stay under half a satoshi.
abbrev pub exact_below : ℕ
exact_below = 2 ^ 51

abbrev pub IsExact : Coins → Type 0
IsExact coins = (n : ℕ) → n < exact_below → coins.to_sats (coins.from_sats n) ≡ n

abbrev pub default_fee : ℕ
default_fee = 10000

abbrev pub dust : ℕ
dust = 1000

abbrev pub max_safe_integer : ℕ
max_safe_integer = 2 ^ 53 - 1

pub record Utxo : Type 0 where
  pub txid : Str
  pub vout : ℕ
  pub satoshis : ℕ
  pub address : Option Str

pub data Error : Type 0 where
  insufficient_funds : (need have : ℕ) → Error
  invalid_amount too_large no_outputs : Error

pub data Result {ℓ} (A : Type ℓ) : Type ℓ where
  ok : A → Result A
  err : Error → Result A

-- The stable sort by falling value, `[...utxos].sort((a, b) => b.satoshis - a.satoshis)`.
unfoldable pub insert_utxo : Utxo → List Utxo → List Utxo
insert_utxo u [] = u ∷ []
insert_utxo u (x ∷ xs) = if ltb u.satoshis x.satoshis then x ∷ insert_utxo u xs else u ∷ x ∷ xs

unfoldable pub sort_utxos : List Utxo → List Utxo
unfolding insert_utxo
sort_utxos [] = []
sort_utxos (u ∷ us) = insert_utxo u (sort_utxos us)

pub record Selection : Type 0 where
  pub selected : List Utxo
  pub total : ℕ

-- The loop: an output is taken before the total is tested.
unfoldable pub pick : ℕ → ℕ → List Utxo → Selection
pick target total [] = record { selected = []; total = total }
pick target total (u ∷ us) =
    let rest = pick target (total + u.satoshis) us in
    if leb target (total + u.satoshis)
    then record { selected = u ∷ []; total = total + u.satoshis }
    else record { selected = u ∷ rest.selected; total = rest.total }

pub record Output : Type 0 where
  pub to : Str
  pub satoshis : ℕ

pub record Transaction : Type 0 where
  pub inputs : List Utxo
  pub outputs : List Output
  pub expiry : Option ℕ

pub record PaymentResult : Type 0 where
  pub transaction : Transaction
  pub spent_utxos : List Utxo
  pub change_utxo : Option Utxo

-- What a builder does with its selection, if it did not throw.
abbrev pub on_selection : Result Selection → (Selection → PaymentResult) → Result PaymentResult
on_selection (ok s) build = ok (build s)
on_selection (err e) build = err e

pub on_selection_ok :
    (drawn : Result Selection) (build : Selection → PaymentResult) (r : PaymentResult)
    → on_selection drawn build ≡ ok r
    → (s : Selection) × (drawn ≡ ok s) × (build s ≡ r)
on_selection_ok (ok s) build r h = (s, refl, cc)
on_selection_ok (err e) build r h = cc

-- `Number.isInteger(expiryHeight) && expiryHeight > 0`
abbrev pub effective_expiry : Option ℕ → Option ℕ
effective_expiry none = none
effective_expiry (some h) = if ltb 0 h then some h else none

module _ (coins : Coins) where
  unfoldable pub select_utxos : List Utxo → coins.Amount → Result Selection
  unfolding sort_utxos pick
  select_utxos utxos target =
      let need = coins.to_sats target in
      let s = pick need 0 (sort_utxos utxos) in
      if ltb s.total need then err (insufficient_funds need s.total) else ok s

  pub record PaymentOutput : Type 0 where
    pub address : Str
    pub amount : coins.Amount

  abbrev pub to_output : PaymentOutput → Output
  to_output o = record { to = o.address; satoshis = coins.to_sats o.amount }

  abbrev pub total_satoshis : List PaymentOutput → ℕ
  total_satoshis [] = 0
  total_satoshis (o ∷ os) = coins.to_sats o.amount + total_satoshis os

  abbrev pub all_payable : List PaymentOutput → Bool
  all_payable [] = true
  all_payable (o ∷ os) = if coins.is_payable o.amount then all_payable os else false

  pub record PaymentParams : Type 0 where
    pub outputs : List PaymentOutput
    pub utxos : List Utxo
    pub fee : ℕ
    pub change_address : Str
    pub expiry_height : Option ℕ

  module _ (id_of : Transaction → Str) where
    -- What the two builders share once the outputs are known: the change goes last, and only if it is
    -- more than dust. A negative difference is no change either.
    unfoldable pub assemble : Selection → List Output → ℕ → ℕ → Str → Option ℕ → PaymentResult
    assemble s outputs total fee change_address expiry =
        let change = s.total - total - fee in
        let paid : Transaction = record {
          inputs = s.selected;
          outputs = outputs;
          expiry = effective_expiry expiry;
        } in
        let with_change : Transaction = record {
          inputs = s.selected;
          outputs = outputs ++ record { to = change_address; satoshis = change } ∷ [];
          expiry = effective_expiry expiry;
        } in
        if ltb dust change
        then record {
          transaction = with_change;
          spent_utxos = s.selected;
          change_utxo = some (record {
            txid = id_of with_change;
            vout = length outputs;
            satoshis = change;
            address = some change_address;
          });
        }
        else record { transaction = paid; spent_utxos = s.selected; change_utxo = none }

    unfoldable pub build_payment :
        (to : Str) (amount : coins.Amount) (utxos : List Utxo) (fee : ℕ) (change_address : Str)
        (expiry_height : Option ℕ)
        → Result PaymentResult
    unfolding assemble select_utxos
    build_payment to amount utxos fee change_address expiry_height =
        let sats = coins.to_sats amount in
        if not (coins.is_payable amount)
        then err invalid_amount
        else if ltb max_safe_integer sats
        then err too_large
        else on_selection (select_utxos utxos (coins.from_sats (sats + fee))) (λ s.
          assemble s (record { to = to; satoshis = sats } ∷ []) sats fee change_address
            expiry_height)

    unfoldable pub build_multi_payment : PaymentParams → Result PaymentResult
    unfolding assemble select_utxos
    build_multi_payment p =
        let total = total_satoshis p.outputs in
        elim p.outputs [
          | [] ↦ err no_outputs
          | _ ∷ _ ↦
              if not (all_payable p.outputs)
              then err invalid_amount
              else on_selection (select_utxos p.utxos (coins.from_sats (total + p.fee))) (λ s.
                assemble s (map to_output p.outputs) total p.fee p.change_address p.expiry_height)
        ]
