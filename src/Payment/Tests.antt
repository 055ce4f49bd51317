-- ===== src/Payment/Tests.antt =====
-- Coin selection and the builders of src/tx/payment.ts on three outputs.
use j41_sovagent_sdk.Prelude.{
  ℕ, ◌≤◌, ◌≡◌, refl, ltb, List, [], ◌∷◌, none, some, arith, Str, codes, map,
}
use j41_sovagent_sdk.Payment.{
  Coins, Utxo, Selection, Transaction, PaymentResult, ok, err, insufficient_funds, select_utxos,
  sort_utxos, pick, build_payment, build_multi_payment, PaymentParams, to_output,
}
use j41_sovagent_sdk.Payment.Fewest.{keep, skip, none_left, select_utxos_fewest}
use j41_sovagent_sdk.Payment.Value.{Pays, build_payment-Pays, build_multi_payment-Pays}

-- Amounts that are counted in satoshis.
abbrev pub whole : Coins
whole = record { Amount = ℕ; is_payable = ltb 0; to_sats = λ n. n; from_sats = λ n. n }

abbrev pub plain_id : Transaction → Str
plain_id t = codes "id"

abbrev pub coin : Str → ℕ → Utxo
coin txid n = record { txid = txid; vout = 0; satoshis = n; address = some (codes "R") }

abbrev pub wallet_utxos : List Utxo
wallet_utxos = coin (codes "a") 4000 ∷ coin (codes "b") 90000 ∷ coin (codes "c") 30000 ∷ []

abbrev chosen : Selection
chosen = record { selected = coin (codes "b") 90000 ∷ []; total = 90000 }

chosen_lem : select_utxos whole wallet_utxos 60000 ≡ ok chosen
unfolding select_utxos sort_utxos pick
chosen_lem = refl

select_utxos_fewest_example : 1 ≤ 2
select_utxos_fewest_example =
    select_utxos_fewest whole wallet_utxos 60000 chosen chosen_lem (omega arith)
      (skip (coin (codes "a") 4000)
        (keep (coin (codes "b") 90000) (keep (coin (codes "c") 30000) none_left)))
      (omega arith)

abbrev built : PaymentResult
built = record {
  transaction = record {
    inputs = coin (codes "b") 90000 ∷ [];
    outputs =
        record { to = codes "S"; satoshis = 60000 }
        ∷ record { to = codes "R"; satoshis = 20000 }
        ∷ [];
    expiry = some 160;
  };
  spent_utxos = coin (codes "b") 90000 ∷ [];
  change_utxo =
      some (record { txid = codes "id"; vout = 1; satoshis = 20000; address = some (codes "R") });
}

built_lem :
    build_payment whole plain_id (codes "S") 60000 wallet_utxos 10000 (codes "R") (some 160)
    ≡ ok built
unfolding build_payment select_utxos sort_utxos pick
built_lem = refl

build_payment-Pays_example :
    Pays (record { to = codes "S"; satoshis = 60000 } ∷ []) 10000 (codes "R") built
build_payment-Pays_example =
    build_payment-Pays whole plain_id (codes "S") 60000 wallet_utxos 10000 (codes "R") (some 160)
      built (λ n h. refl) (omega arith) built_lem

abbrev two : PaymentParams whole
two = record {
  outputs =
      record { address = codes "S"; amount = 60000 }
      ∷ record { address = codes "T"; amount = 20000 }
      ∷ [];
  utxos = wallet_utxos;
  fee = 9500;
  change_address = codes "R";
  expiry_height = none;
}

-- The difference of 500 is dust: it goes to the miner.
abbrev built_two : PaymentResult
built_two = record {
  transaction = record {
    inputs = coin (codes "b") 90000 ∷ [];
    outputs =
        record { to = codes "S"; satoshis = 60000 }
        ∷ record { to = codes "T"; satoshis = 20000 }
        ∷ [];
    expiry = none;
  };
  spent_utxos = coin (codes "b") 90000 ∷ [];
  change_utxo = none;
}

built_two_lem : build_multi_payment whole plain_id two ≡ ok built_two
unfolding build_multi_payment select_utxos sort_utxos pick
built_two_lem = refl

build_multi_payment-Pays_example :
    Pays (map (to_output whole) two.outputs) 9500 (codes "R") built_two
build_multi_payment-Pays_example =
    build_multi_payment-Pays whole plain_id two built_two (λ n h. refl) (omega arith) built_two_lem

short : select_utxos whole wallet_utxos 200000 ≡ err (insufficient_funds 200000 124000)
unfolding select_utxos sort_utxos pick
short = refl
