-- ===== src/Jobs/Memory.antt =====
-- What the job poll of src/agent.ts remembers from one poll to the next.
use j41_sovagent_sdk.Prelude.{
  ℕ, ◌≤◌, ◌≡◌, true, List, [], ◌∷◌, some, All, length, length-evict-le, take, Str, str_discrete,
  Bool-cases, inl, inr,
}
use j41_sovagent_sdk.Prelude.Maps.{has}
use j41_sovagent_sdk.Jobs.{
  Agent, Job, Failures, max_seen_jobs, pending_ids, process_jobs, prune_accept_failures,
  check_for_jobs,
}

-- Nothing but counters of jobs that the last response named, and a bounded set of settled ones.
pub record IsBounded (jobs : List Job) (a : Agent) : Type 0 where
  pub seen_small : length a.seen ≤ max_seen_jobs
  pub counted : All (λ entry. has str_discrete entry.0 (pending_ids jobs) ≡ true) a.failures

prune-pending :
    (ids : List Str) (failures : Failures)
    → All (λ entry. has str_discrete entry.0 ids ≡ true) (prune_accept_failures failures ids)
unfolding prune_accept_failures
prune-pending ids [] = tt
prune-pending ids ((k, n) ∷ failures) = elim (Bool-cases (has str_discrete k ids)) [
  | inl e ↦ rw e (e, prune-pending ids failures)
  | inr e ↦ rw e (prune-pending ids failures)
]

-- After a poll that got its response, whatever the agent remembered before, it remembers at most
-- 10000 settled jobs and counts the failures of pending jobs only.
pub check_for_jobs-IsBounded :
    (max : ℕ) (jobs : List Job) (a : Agent) → IsBounded jobs (check_for_jobs max (some jobs) a)
unfolding check_for_jobs
check_for_jobs-IsBounded max jobs a = record {
  seen_small = length-evict-le max_seen_jobs (process_jobs (take max jobs) a).seen;
  counted = prune-pending (pending_ids jobs) (process_jobs (take max jobs) a).failures;
}
