-- ===== src/Credit/Burst.antt =====
-- src/buyer/credit-watcher.ts: what low-credit signals do while a top-up is under way or just done,
-- and where the money goes.
use j41_sovagent_sdk.Prelude.{
  ℕ, ◌+◌, ◌*◌, ◌<◌, ◌≡◌, refl, List, [], ◌∷◌, arith, Str, true, ◌⊎◌, All, All-append,
}
use j41_sovagent_sdk.Credit.{
  Reading, non_finite, finite, Config, Transfer, Flight, sending, signing, reporting, Watcher,
  resolved, rejected, Event, to_number, observed, credit_low, send_settled, sign_settled,
  report_settled, init, maybe_top_up, observe_remaining, on_credit_low, resume, step, run,
}

-- The two detection paths.
abbrev pub IsSignal : Event → Type 0
IsSignal (observed r) = Unit
IsSignal (credit_low e) = Unit
IsSignal _ = ⊥

-- A top-up is in flight, or the last one is younger than the interval.
abbrev pub IsQuiet : Config → ℕ → Watcher → Type 0
IsQuiet c now w =
    (w.pending ≡ true)
    ⊎ ((0 < w.last_top_up_at) × (now < w.last_top_up_at + c.policy.min_interval_sec * 1000))

abbrev pub AllQuiet : Config → Watcher → List (ℕ × Event) → Type 0
AllQuiet c w [] = Unit
AllQuiet c w ((now, e) ∷ es) = IsSignal e × IsQuiet c now w × AllQuiet c w es

module _ (show : ℕ → Str) (parse_float : Str → Reading) (c : Config) where
  maybe_top_up_quiet :
      (now : ℕ) (w : Watcher) → IsQuiet c now w → (maybe_top_up show parse_float c now w).0 ≡ w
  unfolding maybe_top_up
  maybe_top_up_quiet now w q = ground arith

  observe_remaining_quiet :
      (now : ℕ) (r : Reading) (w : Watcher)
      → IsQuiet c now w
      → (observe_remaining show parse_float c now r w).0 ≡ w
  unfolding observe_remaining
  observe_remaining_quiet now non_finite w q = refl
  observe_remaining_quiet now (finite r) w q = ground (arith, maybe_top_up_quiet now w q)

  step_quiet :
      (now : ℕ) (e : Event) (w : Watcher)
      → IsSignal e
      → IsQuiet c now w
      → (step show parse_float c now e w).0 ≡ w
  unfolding step on_credit_low
  step_quiet now (observed r) w s q = observe_remaining_quiet now r w q
  step_quiet now (credit_low e) w s q =
      ground (arith, observe_remaining_quiet now (to_number show parse_float c e.balance) w q)
  step_quiet now (send_settled o n) w s q = absurd s
  step_quiet now (sign_settled o) w s q = absurd s
  step_quiet now (report_settled o) w s q = absurd s

  -- A burst of signals of both kinds, each of which finds a top-up in flight or one that is younger
  -- than the minimal interval, changes nothing: no payment, no alert, no new debounce.
  pub run_burst :
      (w : Watcher) (es : List (ℕ × Event)) → AllQuiet c w es → run show parse_float c es w ≡ w
  unfolding run
  run_burst w [] q = refl
  run_burst w ((now, e) ∷ es) q = rw (step_quiet now e w q.0 q.1) (run_burst w es q.2)

-- A payment of the configured amount to the configured address.
abbrev pub IsRouted : Config → Transfer → Type 0
IsRouted c p = (p.to ≡ c.seller.pay_address) × (p.spend.amount ≡ c.policy.top_up_amount)

module _ (show : ℕ → Str) (parse_float : Str → Reading) (c : Config) where
  maybe_top_up-sent :
      (now : ℕ) (w : Watcher) → (maybe_top_up show parse_float c now w).0.sent ≡ w.sent
  unfolding maybe_top_up
  maybe_top_up-sent now w = ground arith

  observe_remaining-sent :
      (now : ℕ) (r : Reading) (w : Watcher)
      → (observe_remaining show parse_float c now r w).0.sent ≡ w.sent
  unfolding observe_remaining
  observe_remaining-sent now non_finite w = refl
  observe_remaining-sent now (finite r) w = ground (arith, maybe_top_up-sent now w)

  resume-IsRouted :
      (clock : ℕ) (e : Event) (f : Flight) (w : Watcher)
      → All (IsRouted c) w.sent
      → All (IsRouted c) (resume show parse_float c clock e f w).0.sent
  unfolding resume
  resume-IsRouted clock (send_settled (resolved x) nonce) (sending now) w h =
      All-append (IsRouted c) w.sent _ h ((refl, refl), tt)
  resume-IsRouted clock (send_settled (rejected x) nonce) (sending now) w h = h
  resume-IsRouted clock (sign_settled (resolved x)) (signing now p) w h = h
  resume-IsRouted clock (sign_settled (rejected x)) (signing now p) w h = h
  resume-IsRouted clock (report_settled (resolved x)) (reporting now r) w h = h
  resume-IsRouted clock (report_settled (rejected x)) (reporting now r) w h = h
  resume-IsRouted clock _ _ w h = h

  step-IsRouted :
      (clock : ℕ) (e : Event) (w : Watcher)
      → All (IsRouted c) w.sent
      → All (IsRouted c) (step show parse_float c clock e w).0.sent
  unfolding step on_credit_low
  step-IsRouted clock (observed r) w h = rw (observe_remaining-sent clock r w) h
  step-IsRouted clock (credit_low e) w h =
      ground (arith, observe_remaining-sent clock (to_number show parse_float c e.balance) w)
  step-IsRouted clock e w h = resume-IsRouted clock e w.flight w h

  run-IsRouted :
      (es : List (ℕ × Event)) (w : Watcher)
      → All (IsRouted c) w.sent
      → All (IsRouted c) (run show parse_float c es w).sent
  unfolding run
  run-IsRouted [] w h = h
  run-IsRouted ((clock, e) ∷ es) w h = run-IsRouted es _ (step-IsRouted clock e w h)

-- Whatever the webhooks say, each payment of any history goes to the configured address and is of
-- the configured amount.
pub run-init-IsRouted :
    (show : ℕ → Str) (parse_float : Str → Reading) (c : Config) (es : List (ℕ × Event))
    → All (IsRouted c) (run show parse_float c es init).sent
run-init-IsRouted show parse_float c es = run-IsRouted show parse_float c es init tt
