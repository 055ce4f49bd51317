-- ===== src/Session.antt =====
-- src/buyer/session.ts: the buyer's side of a job. What the platform answers and when is an argument;
-- amounts count a smallest unit.
pub mod Pay
pub mod Wait
pub mod Replies
mod Tests
use j41_sovagent_sdk.Prelude.{
  ℕ, zero, suc, ◌+◌, ◌-◌, ◌*◌, Bool, true, false, not, ◌&&◌, ◌||◌, List, [], ◌∷◌, Option, none,
  some, Str, codes, length, all, ltb, leb, ◌==◌, ◌⊎◌, inl, inr, ◌===◌, str_discrete, if◌then◌else◌,
}
use j41_sovagent_sdk.Prelude.Int.{ℤ, pos, negsuc, leb_ℤ}
use j41_sovagent_sdk.Prelude.Json.{is_base58}

-- `job.payment.feeAmount`, where it is there: a number that is not finite, or an amount.
pub data FeeAmount : Type 0 where
  not_finite : FeeAmount
  finite : ℤ → FeeAmount

pub record JobPayment : Type 0 where
  pub address : Option Str
  pub platform_fee_address : Option Str
  pub fee_amount : Option FeeAmount

pub record Job : Type 0 where
  pub id : Str
  pub status : Str
  pub payment : Option JobPayment

pub record SessionConfig : Type 0 where
  pub amount : ℕ
  pub own_address : Str
  pub auto_end_idle_sec : ℕ

pub record Output : Type 0 where
  pub address : Str
  pub amount : ℕ

pub data StartError : Type 0 where
  create_failed no_payment_address malformed_address implausible_fee pay_failed record_failed :
      StartError
  poll_failed not_started chat_failed : StartError
  job_over : (status : Str) → StartError

-- `isVerusAddr` of a text.
abbrev pub is_verus_addr : Str → Bool
is_verus_addr [] = false
is_verus_addr (c ∷ cs) =
    (c == b'R' || c == b'i') && (leb 25 (length cs) && leb (length cs) 40) && all is_base58 cs

-- The test of the fee, with what it leaves to be paid.
abbrev pub check_fee : ℕ → Option Str → Option FeeAmount → Option Output
check_fee amount (some a) (some (finite (pos n))) =
    if is_verus_addr a && ltb 0 n && leb n amount
    then some (record { address = a; amount = n })
    else none
check_fee amount _ _ = none

abbrev pub with_fee : Output → Option Output → StartError ⊎ List Output
with_fee o none = inl implausible_fee
with_fee o (some fee) = inr (o ∷ fee ∷ [])

abbrev pub add_fee : ℕ → Output → Option Str → Option FeeAmount → StartError ⊎ List Output
add_fee amount o none none = inr (o ∷ [])
add_fee amount o (some a) f = with_fee o (check_fee amount (some a) f)
add_fee amount o none (some f) = with_fee o (check_fee amount none (some f))

-- An empty address counts as none.
abbrev pub pay_to : ℕ → Str → JobPayment → StartError ⊎ List Output
pay_to amount [] p = inl no_payment_address
pay_to amount (c ∷ cs) p =
    if is_verus_addr (c ∷ cs)
    then add_fee amount (record { address = c ∷ cs; amount = amount }) p.platform_fee_address
        p.fee_amount
    else inl malformed_address

abbrev pub pay_address : ℕ → Option Str → JobPayment → StartError ⊎ List Output
pay_address amount none p = inl no_payment_address
pay_address amount (some a) p = pay_to amount a p

abbrev pub outputs_of : ℕ → Option JobPayment → StartError ⊎ List Output
outputs_of amount none = inl no_payment_address
outputs_of amount (some p) = pay_address amount p.address p

-- What happens during a start: `poll k` is the answer of the k-th `getJob`, none if it throws, and
-- `clock k` the time when the loop tests it before that.
pub record Platform : Type 0 where
  pub created : Option Job
  pub paid : Option Str
  pub recorded : Bool
  pub start_wait : ℕ
  pub clock : ℕ → ℕ
  pub poll : ℕ → Option Job
  pub chat : Bool
  pub now : ℕ

abbrev pub max_wait_ms : ℕ
max_wait_ms = 15 * 60 * 1000

abbrev pub in_progress : Str
in_progress = codes "in_progress"

pub data Waited : Type 0 where
  started : Job → Waited
  failed : StartError → Waited
  expired : Waited

abbrev pub is_over : Str → Bool
is_over s = s === codes "cancelled" || s === codes "failed"

-- One round of the loop; `k` polls were made before it, and `rest` is the loop after it.
abbrev pub on_poll : ℕ → Option Job → Option (Waited × ℕ) → Option (Waited × ℕ)
on_poll k none rest = some (failed poll_failed, suc k)
on_poll k (some j) rest =
    if j.status === in_progress
    then some (started j, suc k)
    else if is_over j.status
    then some (failed (job_over j.status), suc k)
    else rest

-- The wait for the payment to be verified, with the polls it made; none means that the fuel ran out.
unfoldable pub wait : Platform → (fuel k : ℕ) → Option (Waited × ℕ)
wait p zero k = none
wait p (suc fuel) k =
    let rest = wait p fuel (suc k) in
    if ltb (p.clock k - p.start_wait) max_wait_ms
    then on_poll k (p.poll k) rest
    else some (expired, k)

abbrev pub max_polls : ℕ
max_polls = 60

-- `sent` are the payments, `recorded` the transactions reported, `ended` the reasons of ends.
pub record Session : Type 0 where
  pub job : Option Job
  pub active : Bool
  pub last_activity : ℕ
  pub idle_timer : Bool
  pub workspace : Bool
  pub sent : List (List Output)
  pub recorded : List (Str × Str)
  pub ended : List Str

abbrev pub init : Session
init = record {
  job = none;
  active = false;
  last_activity = 0;
  idle_timer = false;
  workspace = false;
  sent = [];
  recorded = [];
  ended = [];
}

-- The session that is left, and the error of a rejected start.
abbrev pub Started : Type 0
Started = Session × Option StartError

abbrev pub open_chat : SessionConfig → Platform → Session → Started
open_chat c p s =
    if p.chat
    then (
      record s {
        active = true;
        last_activity = s.last_activity;
        idle_timer = ltb 0 c.auto_end_idle_sec;
      },
      none,
    )
    else (s, some chat_failed)

-- After the loop: `this.job` is the one that was created, unless a poll found it in progress.
abbrev pub after_wait : SessionConfig → Platform → Job → Session → Waited → Started
after_wait c p job s (started j) = open_chat c p (record s { job = some j })
after_wait c p job s (failed e) = (s, some e)
after_wait c p job s expired =
    if job.status === in_progress then open_chat c p s else (s, some not_started)

abbrev pub wait_with :
    SessionConfig → Platform → Job → Session → Option (Waited × ℕ) → Option Started
wait_with c p job s none = none
wait_with c p job s (some (w, n)) = some (after_wait c p job s w)

abbrev pub record_and_wait : SessionConfig → Platform → Job → Str → Session → Option Started
record_and_wait c p job txid s =
    if p.recorded
    then wait_with c p job (record s { recorded = (job.id, txid) ∷ s.recorded })
        (wait p (suc max_polls) 0)
    else some (s, some record_failed)

abbrev pub pay : SessionConfig → Platform → Job → List Output → Session → Option Started
pay c p job outputs s = elim p.paid [
  | none ↦ some (s, some pay_failed)
  | some txid ↦ record_and_wait c p job txid (record s { sent = outputs ∷ s.sent })
]

abbrev pub check_and_pay :
    SessionConfig → Platform → Job → StartError ⊎ List Output → Session → Option Started
check_and_pay c p job (inl e) s = some (s, some e)
check_and_pay c p job (inr outputs) s = pay c p job outputs s

-- `start`
unfoldable pub start : SessionConfig → Platform → Session → Option Started
unfolding wait
start c p s = elim p.created [
  | none ↦ some (s, some create_failed)
  | some job ↦ check_and_pay c p job (outputs_of c.amount job.payment) (record s { job = some job })
]

-- `send`: whether it returns.
abbrev pub send : (now : ℕ) → Session → Session × Bool
send now s = elim s.job [
  | none ↦ (s, false)
  | some job ↦ if s.active then (record s { last_activity = now }, true) else (s, false)
]

-- The listener of chat messages, with whether the message is handed on.
abbrev pub on_chat_message :
    SessionConfig → (job sender : Str) → (now : ℕ) → Session → Session × Bool
on_chat_message c job sender now s = elim s.job [
  | none ↦ (s, false)
  | some j ↦
      if not (job === j.id)
      then (s, false)
      else if sender === c.own_address
      then (s, false)
      else (record s { last_activity = now }, true)
]

-- `endSession`
unfoldable pub end_session : Str → Session → Session
end_session reason s = elim s.job [
  | none ↦ s
  | some job ↦
      if s.active
      then record s {
        active = false;
        workspace = false;
        idle_timer = false;
        ended = reason ∷ s.ended;
      }
      else s
]

-- The interval of the idle timer.
abbrev pub on_idle_tick : SessionConfig → (now : ℕ) → Session → Session
on_idle_tick c now s =
    if s.idle_timer && leb (1000 * c.auto_end_idle_sec) (now - s.last_activity)
    then end_session (codes "idle-timeout") s
    else s
