-- ===== src/Jobs/Tests.antt =====
-- Six polls of src/agent.ts that each name the same job, whose accept always fails.
use j41_sovagent_sdk.Prelude.{
  ◌≤◌, ◌≡◌, refl, true, List, [], ◌∷◌, arith, Option, some, codes, str_discrete, evict,
}
use j41_sovagent_sdk.Prelude.Maps.{get, put, remove, has, add}
use j41_sovagent_sdk.Jobs.{
  Job, init, fails, accept, requested, accept_failed, abandoned, run_polls, check_for_jobs,
  process_jobs, process_job, try_accept, fail_accept, mark_seen, record_accept_failure,
  prune_accept_failures,
}
use j41_sovagent_sdk.Jobs.Retry.{failed_attempts, StaysPending, run_polls-at_most_five}

abbrev job : Job
job = record {
  id = some (codes "j");
  has_hash = true;
  running = true;
  decision = accept;
  can_sign = true;
  outcome = fails;
}

abbrev polls : List (Option (List Job))
polls =
    some (job ∷ [])
    ∷ some (job ∷ [])
    ∷ some (job ∷ [])
    ∷ some (job ∷ [])
    ∷ some (job ∷ [])
    ∷ some (job ∷ [])
    ∷ []

fifth_abandons :
    (run_polls 50 polls init).events
    ≡ requested (codes "j")
      ∷ accept_failed (codes "j") 1
      ∷ requested (codes "j")
      ∷ accept_failed (codes "j") 2
      ∷ requested (codes "j")
      ∷ accept_failed (codes "j") 3
      ∷ requested (codes "j")
      ∷ accept_failed (codes "j") 4
      ∷ requested (codes "j")
      ∷ abandoned (codes "j") 5
      ∷ []
unfolding run_polls check_for_jobs process_jobs process_job try_accept fail_accept mark_seen
    record_accept_failure prune_accept_failures get put remove has add str_discrete evict
fifth_abandons = refl

polls-StaysPending : StaysPending (codes "j") 50 polls init
unfolding check_for_jobs process_jobs process_job try_accept fail_accept mark_seen
    record_accept_failure prune_accept_failures get put remove has add str_discrete evict
polls-StaysPending = (
  refl,
  omega arith,
  (
    refl,
    omega arith,
    (refl, omega arith, (refl, omega arith, (refl, omega arith, (refl, omega arith, tt)))),
  ),
)

run_polls-at_most_five_example : failed_attempts (codes "j") (run_polls 50 polls init).events ≤ 5
run_polls-at_most_five_example = run_polls-at_most_five (codes "j") 50 polls polls-StaysPending
