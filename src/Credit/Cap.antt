-- ===== src/Credit/Cap.antt =====
-- The daily ceiling of src/buyer/credit-watcher.ts over whole histories of events.
use j41_sovagent_sdk.Prelude.{ℕ, ◌+◌, ◌≤◌, ◌≡◌, refl, List, [], ◌∷◌, arith, Str, true, ◌⊎◌, inr}
use j41_sovagent_sdk.Credit.{
  Reading, non_finite, finite, Config, Spend, Transfer, DepositReport, Flight, grounded, sending,
  signing, reporting, Watcher, Outcome, resolved, rejected, Event, CreditLowEvent, to_number,
  observed, credit_low, send_settled, sign_settled, report_settled, spent_in_window, init,
  maybe_top_up, observe_remaining, on_credit_low, after_send, after_sign, after_report, resume,
  step, run,
}
use j41_sovagent_sdk.Signing.{DepositReportParams}
use j41_sovagent_sdk.Credit.Window.{
  spent_in_window_antitone, spent_in_window_single-le, spent_in_window-record_spend,
  spent_in_window-paid_snoc, spent_in_window-nil, paid,
}

-- The clock of a history does not run backwards; `last_clock` is its latest reading.
abbrev pub IsOrdered : ℕ → List (ℕ × Event) → Type 0
IsOrdered clock [] = Unit
IsOrdered clock ((now, e) ∷ es) = (clock ≤ now) × IsOrdered now es

abbrev pub last_clock : ℕ → List (ℕ × Event) → ℕ
last_clock clock [] = clock
last_clock clock ((now, e) ∷ es) = last_clock now es

clock-le-last_clock :
    (clock : ℕ) (es : List (ℕ × Event)) → IsOrdered clock es → clock ≤ last_clock clock es
clock-le-last_clock clock [] o = omega arith
clock-le-last_clock clock ((now, e) ∷ es) o = omega (arith, clock-le-last_clock now es o.1)

-- The signer answers.
abbrev pub IsSigned : Event → Type 0
IsSigned (sign_settled (rejected e)) = ⊥
IsSigned _ = Unit

abbrev pub AllSigned : List (ℕ × Event) → Type 0
AllSigned [] = Unit
AllSigned ((now, e) ∷ es) = IsSigned e × AllSigned es

-- A payment that is confirmed and not recorded yet, and what the ceiling has set aside for it.
abbrev owed : ℕ → Flight → List Spend
owed a (signing now p) = record { at = now; amount = a } ∷ []
owed a (reporting now r) = record { at = now; amount = a } ∷ []
owed a _ = []

abbrev reserved : ℕ → Flight → ℕ
reserved a grounded = 0
reserved a _ = a

abbrev started : Flight → ℕ
started grounded = 0
started (sending now) = now
started (signing now p) = now
started (reporting now r) = now

owed-le-reserved : (t a : ℕ) (f : Flight) → spent_in_window t (owed a f) ≤ reserved a f
unfolding spent_in_window
owed-le-reserved t a grounded = omega arith
owed-le-reserved t a f = ground arith

-- The call in flight holds the guard.
abbrev IsGuarded : Watcher → Type 0
IsGuarded w = (w.pending ≡ true) ⊎ (w.flight ≡ grounded)

module _ (show : ℕ → Str) (parse_float : Str → Reading) (c : Config) (t : ℕ) where
  -- At `clock`, seen from a later time `t`.
  record IsCapped (clock : ℕ) (w : Watcher) : Type 0 where
    balanced :
        spent_in_window t (paid w.sent)
        ≡ spent_in_window t w.spends + spent_in_window t (owed c.policy.top_up_amount w.flight)
    capped :
        spent_in_window clock w.spends + reserved c.policy.top_up_amount w.flight
        ≤ c.policy.daily_cap_vrsc
    begun : started w.flight ≤ clock
    alone : IsGuarded w

  init-IsCapped : IsCapped 0 init
  unfolding spent_in_window
  init-IsCapped = record {
    balanced = refl;
    capped = omega arith;
    begun = omega arith;
    alone = inr refl;
  }

  IsCapped-mono : (clock now : ℕ) (w : Watcher) → clock ≤ now → IsCapped clock w → IsCapped now w
  IsCapped-mono clock now w h v = record {
    balanced = v.balanced;
    capped = omega (arith, v.capped, spent_in_window_antitone clock now w.spends h);
    begun = omega (arith, v.begun);
    alone = v.alone;
  }

  IsCapped-le :
      (clock : ℕ) (w : Watcher)
      → clock ≤ t
      → IsCapped clock w
      → spent_in_window t (paid w.sent) ≤ c.policy.daily_cap_vrsc
  IsCapped-le clock w h v = omega (
    arith,
    v.balanced,
    v.capped,
    spent_in_window_antitone clock t w.spends h,
    owed-le-reserved t c.policy.top_up_amount w.flight,
  )

  maybe_top_up-IsCapped :
      (now : ℕ) (w : Watcher)
      → IsCapped now w
      → IsCapped now (maybe_top_up show parse_float c now w).0
  unfolding maybe_top_up spent_in_window
  maybe_top_up-IsCapped now w v = ground arith

  observe_remaining-IsCapped :
      (now : ℕ) (r : Reading) (w : Watcher)
      → IsCapped now w
      → IsCapped now (observe_remaining show parse_float c now r w).0
  unfolding observe_remaining
  observe_remaining-IsCapped now non_finite w v = v
  observe_remaining-IsCapped now (finite r) w v = ground (arith, maybe_top_up-IsCapped now w v)

  on_credit_low-IsCapped :
      (now : ℕ) (e : CreditLowEvent) (w : Watcher)
      → IsCapped now w
      → IsCapped now (on_credit_low show parse_float c now e w).0
  unfolding on_credit_low
  on_credit_low-IsCapped now e w v =
      ground (arith, observe_remaining-IsCapped now (to_number show parse_float c e.balance) w v)

  after_send-IsCapped :
      (now clock : ℕ) (o : Outcome) (nonce : Str) (w : Watcher)
      → w.flight ≡ sending now
      → IsCapped clock w
      → IsCapped clock (after_send show parse_float c now clock o nonce w).0
  unfolding after_send spent_in_window
  after_send-IsCapped now clock (rejected e) nonce w h v = ground arith
  after_send-IsCapped now clock (resolved txid) nonce w h v =
      let x : Transfer = record {
        to = c.seller.pay_address;
        spend = record { at = now; amount = c.policy.top_up_amount };
      } in
      ground (arith, spent_in_window-paid_snoc t w.sent x)

  after_sign-IsCapped :
      (now clock : ℕ) (p : DepositReportParams) (signature : Str) (w : Watcher)
      → w.flight ≡ signing now p
      → IsCapped clock w
      → IsCapped clock (after_sign show parse_float c now p (resolved signature) w).0
  unfolding after_sign
  after_sign-IsCapped now clock p signature w h v = ground arith

  after_report-IsCapped :
      (now clock : ℕ) (r : DepositReport) (o : Outcome) (w : Watcher)
      → w.flight ≡ reporting now r
      → clock ≤ t
      → IsCapped clock w
      → IsCapped clock (after_report show parse_float c now r o w).0
  unfolding after_report
  after_report-IsCapped now clock r (rejected e) w h k v = ground (
    arith,
    spent_in_window-record_spend t now c.policy.top_up_amount w.spends,
    spent_in_window-record_spend clock now c.policy.top_up_amount w.spends,
    spent_in_window_single-le clock now c.policy.top_up_amount,
    spent_in_window-nil t,
  )
  after_report-IsCapped now clock r (resolved x) w h k v = ground (
    arith,
    spent_in_window-record_spend t now c.policy.top_up_amount w.spends,
    spent_in_window-record_spend clock now c.policy.top_up_amount w.spends,
    spent_in_window_single-le clock now c.policy.top_up_amount,
    spent_in_window-nil t,
  )

  resume-IsCapped :
      (clock : ℕ) (e : Event) (f : Flight) (w : Watcher)
      → w.flight ≡ f
      → clock ≤ t
      → IsSigned e
      → IsCapped clock w
      → IsCapped clock (resume show parse_float c clock e f w).0
  unfolding resume
  resume-IsCapped clock (send_settled o nonce) (sending now) w h k s v =
      after_send-IsCapped now clock o nonce w h v
  resume-IsCapped clock (sign_settled (resolved x)) (signing now p) w h k s v =
      after_sign-IsCapped now clock p x w h v
  resume-IsCapped clock (sign_settled (rejected x)) (signing now p) w h k s v = absurd s
  resume-IsCapped clock (report_settled o) (reporting now r) w h k s v =
      after_report-IsCapped now clock r o w h k v
  resume-IsCapped clock _ _ w h k s v = v

  step-IsCapped :
      (clock : ℕ) (e : Event) (w : Watcher)
      → clock ≤ t
      → IsSigned e
      → IsCapped clock w
      → IsCapped clock (step show parse_float c clock e w).0
  unfolding step
  step-IsCapped clock (observed r) w k s v = observe_remaining-IsCapped clock r w v
  step-IsCapped clock (credit_low e) w k s v = on_credit_low-IsCapped clock e w v
  step-IsCapped clock e w k s v = resume-IsCapped clock e w.flight w refl k s v

  run-IsCapped :
      (clock : ℕ) (es : List (ℕ × Event)) (w : Watcher)
      → IsOrdered clock es
      → last_clock clock es ≤ t
      → AllSigned es
      → IsCapped clock w
      → IsCapped (last_clock clock es) (run show parse_float c es w)
  unfolding run
  run-IsCapped clock [] w o k s v = v
  run-IsCapped clock ((now, e) ∷ es) w o k s v =
      let later = clock-le-last_clock now es o.1 in
      run-IsCapped now es (step show parse_float c now e w).0 o.1 k s.1
        (step-IsCapped now e w (omega arith) s.0 (IsCapped-mono clock now w o.0 v))

-- If the signer always answers, then in every window of 24 hours the payments that were confirmed
-- come to the daily ceiling at most, whatever signals arrive, in any order and at any time. A payment
-- counts from the moment when its call was decided; the clock does not run backwards, and `t` is any
-- moment from the last event on.
pub paid_le_cap :
    (show : ℕ → Str) (parse_float : Str → Reading) (c : Config) (es : List (ℕ × Event)) (t : ℕ)
    → IsOrdered 0 es
    → last_clock 0 es ≤ t
    → AllSigned es
    → spent_in_window t (paid (run show parse_float c es init).sent) ≤ c.policy.daily_cap_vrsc
paid_le_cap show parse_float c es t o k s =
    IsCapped-le show parse_float c t (last_clock 0 es) (run show parse_float c es init) k
      (run-IsCapped show parse_float c t 0 es init o k s (init-IsCapped show parse_float c t))
