-- ===== src/Lifecycle/Tests.antt =====
-- Starts and stops of src/agent.ts.
use j41_sovagent_sdk.Prelude.{◌+◌, ◌≡◌, refl, inl, inr, true, List, [], ◌∷◌, length}
use j41_sovagent_sdk.Lifecycle.{
  init, Event, start_called, checked, stop_called, ticks, clear_interval, step, run,
}
use j41_sovagent_sdk.Lifecycle.Intervals.{IsTidy, OneByOne, ends, goes, run-IsTidy}
use j41_sovagent_sdk.Lifecycle.Overlap.{overlaps, run-overlaps}

abbrev history : List Event
history =
    start_called true ∷ checked ∷ ticks 0 ∷ stop_called ∷ ticks 0 ∷ start_called true ∷ checked ∷ []

history-OneByOne : OneByOne history init
unfolding step clear_interval
history-OneByOne = goes _ _ _ refl (
    goes _ _ _ tt
      (goes _ _ _ tt (goes _ _ _ tt (goes _ _ _ tt (goes _ _ _ refl (goes _ _ _ tt (ends _)))))))

init-IsTidy : IsTidy init
init-IsTidy = record { owned = refl; waiting = inl refl; stopped = inr refl }

run-IsTidy_example : IsTidy (run history init)
run-IsTidy_example = run-IsTidy history init history-OneByOne init-IsTidy

-- Two checks of starts and one of a tick; the tick after the stop does nothing.
history_polls : (run history init).polls ≡ 3
unfolding run clear_interval
history_polls = refl

run-overlaps_example : length (run (overlaps 2) init).intervals ≡ 2 + length init.intervals
run-overlaps_example = run-overlaps 2 init refl refl refl
