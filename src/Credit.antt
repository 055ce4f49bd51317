-- ===== src/Credit.antt =====
-- src/buyer/credit-watcher.ts. An `async` method is cut at its `await`s: what it keeps across one is
-- a `Flight`, and the settled promise comes back as an event. Amounts are counted in a smallest
-- unit, times in milliseconds.
pub mod Window
pub mod Cap
pub mod Burst
pub mod Unsigned
mod Tests
use j41_sovagent_sdk.Prelude.{
  ℕ, ◌+◌, ◌*◌, ◌/◌, Bool, true, false, ◌&&◌, List, [], ◌∷◌, ◌++◌, Option, none, some, ltb, filter,
  if◌then◌else◌, Str, ◌===◌,
}
use j41_sovagent_sdk.Prelude.Int.{ℤ, pos, leb_ℤ}
use j41_sovagent_sdk.Signing.{DepositReportParams, build_deposit_report_message}

-- A JavaScript number that was read from outside: `Number.isFinite` fails on the first.
pub data Reading : Type 0 where
  non_finite : Reading
  finite : ℤ → Reading

pub data Balance : Type 0 where
  number : Reading → Balance
  text : Str → Balance

pub record Seller : Type 0 where
  pub seller_verus_id : Str
  pub buyer_verus_id : Str
  pub pay_address : Str

pub record Policy : Type 0 where
  pub threshold : ℕ
  pub top_up_amount : ℕ
  pub daily_cap_vrsc : ℕ
  pub min_interval_sec : ℕ

pub record Config : Type 0 where
  pub seller : Seller
  pub policy : Policy

pub record CreditLowEvent : Type 0 where
  pub seller_verus_id : Str
  pub balance : Balance
  pub pay_address : Str

pub data Stage : Type 0 where
  send report : Stage

pub data Alert : Type 0 where
  daily_cap_reached : (spent_today attempted_amount : ℕ) → Alert
  topup_failed : Stage → (error : Str) → Alert

pub data TopUpResult : Type 0 where
  topped_up : (txid : Str) → (amount : ℕ) → TopUpResult
  above_threshold rate_limited cap_reached no_op : TopUpResult
  error : Str → TopUpResult

-- A recorded spend, and a payment that `sendVrsc` was asked for and that it confirmed.
pub record Spend : Type 0 where
  pub at : ℕ
  pub amount : ℕ

pub record Transfer : Type 0 where
  pub to : Str
  pub spend : Spend

pub record DepositReport : Type 0 where
  pub params : DepositReportParams
  pub signature : Str
  pub message : Str

-- What `maybeTopUp` keeps while it waits: `now`, then the report's parts.
pub data Flight : Type 0 where
  grounded : Flight
  sending : (now : ℕ) → Flight
  signing : (now : ℕ) → DepositReportParams → Flight
  reporting : (now : ℕ) → DepositReport → Flight

-- The fields of `CreditWatcher`, the suspended call, and what the outside has seen of it.
pub record Watcher : Type 0 where
  pub pending : Bool
  pub last_top_up_at : ℕ
  pub spends : List Spend
  pub flight : Flight
  pub sent : List Transfer
  pub alerts : List Alert

pub data Outcome : Type 0 where
  resolved : Str → Outcome
  rejected : Str → Outcome

pub data Event : Type 0 where
  observed : Reading → Event
  credit_low : CreditLowEvent → Event
  send_settled : Outcome → (nonce : Str) → Event
  sign_settled : Outcome → Event
  report_settled : Outcome → Event

abbrev pub day_ms : ℕ
day_ms = 24 * 3600 * 1000

-- `s.at > now - DAY_MS`, with the subtraction moved across: times may be below a day.
abbrev pub recent : ℕ → Spend → Bool
recent now s = ltb now (s.at + day_ms)

unfoldable pub spent_in_window : ℕ → List Spend → ℕ
spent_in_window now [] = 0
spent_in_window now (s ∷ ss) = (if recent now s then s.amount else 0) + spent_in_window now ss

abbrev pub record_spend : ℕ → ℕ → List Spend → List Spend
record_spend amount at spends =
    filter (recent at) spends ++ record { at = at; amount = amount } ∷ []

abbrev pub init : Watcher
init = record {
  pending = false;
  last_top_up_at = 0;
  spends = [];
  flight = grounded;
  sent = [];
  alerts = [];
}

abbrev pub emit_alert : Alert → Watcher → Watcher
emit_alert a w = record w { alerts = w.alerts ++ a ∷ [] }

-- The `finally` block, and the end of the call.
abbrev pub settle : Watcher → Watcher
settle w = record w { pending = false; flight = grounded }

module _ (show : ℕ → Str) (parse_float : Str → Reading) (c : Config) where
  -- `maybeTopUp` up to its first `await`.
  unfoldable pub maybe_top_up : ℕ → Watcher → Watcher × Option TopUpResult
  maybe_top_up now w =
      let spent = spent_in_window now w.spends in
      if w.pending
      then (w, some rate_limited)
      else if ltb 0 w.last_top_up_at
          && ltb now (w.last_top_up_at + c.policy.min_interval_sec * 1000)
      then (w, some rate_limited)
      else if ltb c.policy.daily_cap_vrsc (spent + c.policy.top_up_amount)
      then (emit_alert (daily_cap_reached spent c.policy.top_up_amount) w, some cap_reached)
      else (record w { pending = true; flight = sending now }, none)

  unfoldable pub observe_remaining : ℕ → Reading → Watcher → Watcher × Option TopUpResult
  observe_remaining now non_finite w = (w, some no_op)
  observe_remaining now (finite remaining) w =
      if leb_ℤ (pos c.policy.threshold) remaining
      then (w, some above_threshold)
      else maybe_top_up now w

  abbrev pub to_number : Balance → Reading
  to_number (number r) = r
  to_number (text s) = parse_float s

  unfoldable pub on_credit_low : ℕ → CreditLowEvent → Watcher → Watcher × Option TopUpResult
  on_credit_low now e w =
      if e.seller_verus_id === c.seller.seller_verus_id
      then observe_remaining now (to_number e.balance) w
      else (w, some no_op)

  -- `afterProxiedResponse`; `none` is a response without a number.
  abbrev pub after_proxied_response : ℕ → Option Reading → Watcher → Watcher
  after_proxied_response now none w = w
  after_proxied_response now (some remaining) w = (observe_remaining now remaining w).0

  -- After `sendVrsc`.
  unfoldable pub after_send : ℕ → ℕ → Outcome → Str → Watcher → Watcher × Option TopUpResult
  after_send now clock (rejected e) nonce w =
      (settle (emit_alert (topup_failed send e) w), some (error e))
  after_send now clock (resolved txid) nonce w = (
    record w {
      flight = signing now (record {
        buyer_verus_id = c.seller.buyer_verus_id;
        seller_verus_id = c.seller.seller_verus_id;
        txid = txid;
        amount = c.policy.top_up_amount;
        nonce = nonce;
        timestamp = clock / 1000;
      });
      sent =
          w.sent
          ++ record {
            to = c.seller.pay_address;
            spend = record { at = now; amount = c.policy.top_up_amount };
          }
            ∷ [];
    },
    none,
  )

  -- After `signer.signMessage`.
  unfoldable pub after_sign :
      ℕ → DepositReportParams → Outcome → Watcher → Watcher × Option TopUpResult
  after_sign now p (rejected e) w = (settle (emit_alert (topup_failed report e) w), some (error e))
  after_sign now p (resolved signature) w = (
    record w {
      flight = reporting now (record {
        params = p;
        signature = signature;
        message = build_deposit_report_message show p;
      });
    },
    none,
  )

  -- After `reportDeposit`: the spend is recorded on both branches.
  unfoldable pub after_report : ℕ → DepositReport → Outcome → Watcher → Watcher × Option TopUpResult
  after_report now r (rejected e) w = (
    settle (
        emit_alert (topup_failed report e) (record w {
          spends = record_spend c.policy.top_up_amount now w.spends;
          last_top_up_at = now;
        })),
    some (error e),
  )
  after_report now r (resolved _) w = (
    settle (record w {
      spends = record_spend c.policy.top_up_amount now w.spends;
      last_top_up_at = now;
    }),
    some (topped_up r.params.txid c.policy.top_up_amount),
  )

  -- A settled promise resumes the call that waits for it; there is no other.
  resume : ℕ → Event → Flight → Watcher → Watcher × Option TopUpResult
  unfolding after_send after_sign after_report
  resume clock (send_settled o nonce) (sending now) w = after_send now clock o nonce w
  resume clock (sign_settled o) (signing now p) w = after_sign now p o w
  resume clock (report_settled o) (reporting now r) w = after_report now r o w
  resume clock _ _ w = (w, none)

  unfoldable pub step : ℕ → Event → Watcher → Watcher × Option TopUpResult
  unfolding resume observe_remaining on_credit_low
  step clock (observed r) w = observe_remaining clock r w
  step clock (credit_low e) w = on_credit_low clock e w
  step clock e w = resume clock e w.flight w

  -- A history of events with the clock at each.
  unfoldable pub run : List (ℕ × Event) → Watcher → Watcher
  unfolding step
  run [] w = w
  run ((clock, e) ∷ es) w = run es (step clock e w).0
