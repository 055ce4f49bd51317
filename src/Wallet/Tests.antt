-- ===== src/Wallet/Tests.antt =====
-- Two sends of src/agent.ts, one after another: the second draws on the change of the first.
use mathlib.Core.List.{Nodup}
use j41_sovagent_sdk.Prelude.{
  ◌++◌, ℕ, ◌≡◌, refl, true, false, List, [], ◌∷◌, none, some, arith, Str, codes, str_discrete, Bool,
}
use j41_sovagent_sdk.Prelude.Maps.{has, add}
use j41_sovagent_sdk.Payment.{
  build_payment, select_utxos, sort_utxos, insert_utxo, pick, Transaction,
}
use j41_sovagent_sdk.Payment.Tests.{whole, plain_id, coin, wallet_utxos}
use j41_sovagent_sdk.Wallet.{
  attempt, empty, Sender, Platform, CurrencyRequest, send_currency, Send, currency, run_sends,
  resolve, unspent,
}
use j41_sovagent_sdk.Wallet.NoDoubleSpend.{run_sends-Nodup}
use j41_sovagent_sdk.Wallet.Destination.{Delivers, send_currency-Delivers}

abbrev digits : ℕ → Str
digits n = n ∷ []

abbrev no_i : Str → Bool
no_i a = false

abbrev alice : Sender
alice = record {
  has_wif = true;
  r_address = codes "R";
  i_address = some (codes "i");
  env_trust = false;
}

abbrev request : CurrencyRequest whole plain_id digits no_i
request = record {
  to = codes "S";
  amount = 30000;
  change_address = none;
  source_address = none;
  trust_platform_resolution = none;
}

-- Both requests see the same outputs: the platform has not noticed the first payment yet.
abbrev platform : Str → Platform
platform txid = record {
  login = true;
  payment_address = none;
  utxos = some wallet_utxos;
  chain_info = some (some 100);
  broadcast = some txid;
}

abbrev sends : List (Send whole plain_id digits no_i)
sends =
    currency alice request (platform (codes "t"))
    ∷ currency alice request (platform (codes "u"))
    ∷ []

abbrev drawn : List Str
drawn = (codes "b:" ++ 0 ∷ []) ∷ (codes "t:" ++ 1 ∷ []) ∷ []

sends_lem : (run_sends whole plain_id digits no_i sends empty).1 ≡ drawn
unfolding run_sends attempt build_payment send_currency unspent has add str_discrete select_utxos
    sort_utxos insert_utxo pick resolve
sends_lem = refl

run_sends-Nodup_example : Nodup (run_sends whole plain_id digits no_i sends empty).1
run_sends-Nodup_example =
    run_sends-Nodup whole plain_id digits no_i sends (rw sends_lem (omega arith))

abbrev paid : Transaction
paid = record {
  inputs = coin (codes "b") 90000 ∷ [];
  outputs =
      record { to = codes "S"; satoshis = 30000 }
      ∷ record { to = codes "R"; satoshis = 50000 }
      ∷ [];
  expiry = some 160;
}

paid_lem :
    (send_currency whole plain_id digits no_i alice request (platform (codes "t")) empty).1
    ≡ some paid
unfolding send_currency build_payment unspent has add str_discrete select_utxos sort_utxos
    insert_utxo pick resolve
paid_lem = refl

send_currency-Delivers_example :
    (to : Str) × (resolve whole plain_id digits no_i alice request (platform (codes "t")) ≡ some to)
    × Delivers alice to 30000 paid
send_currency-Delivers_example =
    send_currency-Delivers whole plain_id digits no_i alice request (platform (codes "t")) empty
      paid (λ n h. refl) (omega arith) paid_lem
