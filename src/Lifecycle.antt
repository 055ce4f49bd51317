-- ===== src/Lifecycle.antt =====
-- `start` and `stop` of src/agent.ts: the interval that polls for jobs.
pub mod Intervals
pub mod Overlap
mod Tests
use j41_sovagent_sdk.Prelude.{
  ℕ, zero, suc, Bool, true, false, not, ◌&&◌, List, [], ◌∷◌, Option, none, some, ◌==◌, any,
  if◌then◌else◌,
}
use j41_sovagent_sdk.Wallet.{Wallet, empty}

-- `poll_timer` is the field `pollTimer`; `intervals` are those that run, and `next` is the identity of the
-- next. `starting` counts the calls of `start` that wait for their first check, and `polls` the calls
-- of `checkForJobs`.
pub record Agent : Type 0 where
  pub running : Bool
  pub poll_timer : Option ℕ
  pub intervals : List ℕ
  pub next : ℕ
  pub starting : ℕ
  pub polls : ℕ
  pub wallet : Wallet

abbrev pub init : Agent
init = record {
  running = false;
  poll_timer = none;
  intervals = [];
  next = 0;
  starting = 0;
  polls = 0;
  wallet = empty;
}

-- `clearInterval`
unfoldable pub clear_interval : ℕ → List ℕ → List ℕ
clear_interval id [] = []
clear_interval id (i ∷ is) = if i == id then is else i ∷ clear_interval id is

abbrev pub clear_timer : Option ℕ → List ℕ → List ℕ
clear_timer none is = is
clear_timer (some id) is = clear_interval id is

-- `start` to the end of its first check; it throws without a session token.
abbrev pub start : (logged_in : Bool) → Agent → Agent
start logged_in a =
    if a.running
    then a
    else if logged_in
    then record a { running = true; starting = suc a.starting; polls = suc a.polls }
    else a

-- The rest of a `start`, after its first check.
abbrev pub set_interval : Agent → Agent
set_interval a = record a {
  poll_timer = some a.next;
  intervals = a.next ∷ a.intervals;
  next = suc a.next;
}

abbrev pub drop_timer : Agent → Agent
drop_timer a = record a { poll_timer = none; intervals = clear_timer a.poll_timer a.intervals }

abbrev pub after_check : ℕ → Agent → Agent
after_check zero a = a
after_check (suc n) a =
    let b = set_interval (record a { starting = n }) in if a.running then b else drop_timer b

abbrev pub stop : Agent → Agent
stop a = let b = drop_timer a in record b { running = false; wallet = empty }

abbrev pub tick : ℕ → Agent → Agent
tick id a =
    if any (λ i. i == id) a.intervals && a.running then record a { polls = suc a.polls } else a

pub data Event : Type 0 where
  start_called : (logged_in : Bool) → Event
  checked stop_called : Event
  ticks : (id : ℕ) → Event

unfoldable pub step : Event → Agent → Agent
step (start_called l) a = start l a
step checked a = after_check a.starting a
step stop_called a = stop a
step (ticks id) a = tick id a

unfoldable pub run : List Event → Agent → Agent
unfolding step
run [] a = a
run (e ∷ es) a = run es (step e a)
