-- ===== src/Lifecycle/Overlap.antt =====
-- What a start of src/agent.ts during another leaves behind.
use j41_sovagent_sdk.Prelude.{
  ℕ, zero, suc, ◌≡◌, refl, ap, ◌∙◌, true, false, List, [], ◌∷◌, ◌+◌, none, arith, length,
}
use j41_sovagent_sdk.Wallet.{empty}
use j41_sovagent_sdk.Lifecycle.{Agent, Event, start_called, checked, stop_called, run}
use j41_sovagent_sdk.Lifecycle.Intervals.{clear-head}

-- A start, a stop and a start before the first check is done, and a stop at the end, that many times.
abbrev pub overlaps : ℕ → List Event
overlaps zero = []
overlaps (suc n) =
    start_called true
    ∷ stop_called
    ∷ start_called true
    ∷ checked
    ∷ checked
    ∷ stop_called
    ∷ overlaps n

-- Each round leaves an interval that no later call of `stop` clears, although the agent is stopped.
pub run-overlaps :
    (n : ℕ) (a : Agent)
    → a.running ≡ false
    → a.starting ≡ 0
    → a.poll_timer ≡ none
    → length (run (overlaps n) a).intervals ≡ n + length a.intervals
unfolding run
run-overlaps zero a r s t = omega arith
run-overlaps (suc n) a r s t =
    let b : Agent = record a {
      running = false;
      poll_timer = none;
      intervals = a.next ∷ a.intervals;
      next = suc (suc a.next);
      starting = 0;
      polls = suc (suc a.polls);
      wallet = empty;
    } in
    rw (r, s, t)
      (ap (λ is. length (run (overlaps n) (record b { intervals = is })).intervals)
          (clear-head (suc a.next) (a.next ∷ a.intervals))
        ∙ run-overlaps n b refl refl refl
        ∙ omega arith)
