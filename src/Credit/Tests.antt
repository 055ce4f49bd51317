-- ===== src/Credit/Tests.antt =====
-- Runs of the watcher of src/buyer/credit-watcher.ts, and the theorems about it at concrete inputs.
use j41_sovagent_sdk.Prelude.{
  some, ℕ, ◌≤◌, ◌≡◌, refl, List, [], ◌∷◌, arith, Str, codes, str_discrete,
}
use j41_sovagent_sdk.Prelude.Int.{pos}
use j41_sovagent_sdk.Credit.{
  Reading, non_finite, finite, number, Config, Watcher, resolved, Event, observed, credit_low,
  send_settled, sign_settled, report_settled, init, spent_in_window, step, run, maybe_top_up,
  cap_reached,
}
use j41_sovagent_sdk.Credit.Window.{paid}
use j41_sovagent_sdk.Credit.Cap.{paid_le_cap}

abbrev ones : ℕ → Str
ones n = codes "1"

abbrev no_floats : Str → Reading
no_floats s = non_finite

abbrev config : Config
config = record {
  seller = record {
    seller_verus_id = codes "bob@";
    buyer_verus_id = codes "alice@";
    pay_address = codes "iBob";
  };
  policy = record {
    threshold = 100;
    top_up_amount = 50;
    daily_cap_vrsc = 120;
    min_interval_sec = 60;
  };
}

abbrev low : Event
low = observed (finite (pos 10))

abbrev hook : Event
hook = credit_low (record {
  seller_verus_id = codes "bob@";
  balance = number (finite (pos 10));
  pay_address = codes "iMallory";
})

-- One whole top-up.
abbrev top_up : ℕ → List (ℕ × Event)
top_up t =
    (t, low)
    ∷ (t, send_settled (resolved (codes "tx")) (codes "n"))
    ∷ (t, sign_settled (resolved (codes "sig")))
    ∷ (t, report_settled (resolved []))
    ∷ []

abbrev after_one : Watcher
after_one = run ones no_floats config (top_up 5) init

after_one_spent : spent_in_window 5 (paid after_one.sent) ≡ 50
unfolding run spent_in_window maybe_top_up str_discrete
after_one_spent = refl

-- After a second one the ceiling has no room for a third.
abbrev after_two : Watcher
after_two = run ones no_floats config (top_up 70000) after_one

third_refused : (step ones no_floats config 200000 low after_two).1 ≡ some cap_reached
unfolding step run spent_in_window maybe_top_up str_discrete
third_refused = refl

paid_le_cap_example : spent_in_window 80000 (paid after_one.sent) ≤ 120
paid_le_cap_example =
    paid_le_cap ones no_floats config (top_up 5) 80000 (omega arith) (omega arith)
      (tt, (tt, (tt, (tt, tt))))
