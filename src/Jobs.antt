-- ===== src/Jobs.antt =====
-- The job poll of src/agent.ts, `checkForJobs`, and the bounded retry of src/jobs/accept-retry.ts.
-- The flag `polling` keeps polls apart, so a poll is one function of the agent's fields; what the
-- platform and the handler answer for each job is its argument.
pub mod Retry
pub mod Memory
mod Tests
use j41_sovagent_sdk.Prelude.{
  ℕ, ◌+◌, Bool, true, false, not, ◌||◌, List, [], ◌∷◌, ◌++◌, Option, none, some, leb, take, filter,
  evict, if◌then◌else◌, Str, str_discrete,
}
use j41_sovagent_sdk.Prelude.Maps.{get, put, remove, has, add}

abbrev pub max_accept_attempts : ℕ
max_accept_attempts = 5

abbrev pub max_seen_jobs : ℕ
max_seen_jobs = 10000

abbrev pub Failures : Type 0
Failures = List (Str × ℕ)

pub record AcceptFailureResult : Type 0 where
  pub attempts : ℕ
  pub give_up : Bool

abbrev pub count : Option ℕ → ℕ
count none = 0
count (some n) = n

-- `recordAcceptFailure`
unfoldable pub record_accept_failure : Failures → Str → ℕ → Failures × AcceptFailureResult
record_accept_failure failures job_id max =
    let attempts = count (get str_discrete job_id failures) + 1 in
    (
      put str_discrete job_id attempts failures,
      record { attempts = attempts; give_up = leb max attempts },
    )

abbrev pub clear_accept_failure : Failures → Str → Failures
clear_accept_failure failures job_id = remove str_discrete job_id failures

-- `pruneAcceptFailures`
unfoldable pub prune_accept_failures : Failures → List Str → Failures
prune_accept_failures failures still_pending =
    filter (λ entry. has str_discrete entry.0 still_pending) failures

-- What the listeners are told.
pub data JobEvent : Type 0 where
  requested accepted rejected : (id : Str) → JobEvent
  cannot_accept : (id : Str) → JobEvent
  accept_failed : (id : Str) → (attempts : ℕ) → JobEvent
  abandoned : (id : Str) → (attempts : ℕ) → JobEvent
  job_error : (id : Str) → JobEvent
  poll_error : JobEvent

-- The fields that outlive a poll, and what was emitted.
pub record Agent : Type 0 where
  pub seen : List Str
  pub failures : Failures
  pub events : List JobEvent

abbrev pub init : Agent
init = record { seen = []; failures = []; events = [] }

-- Signing and `acceptJob` may throw; the last is a throw after the job was accepted, from a listener
-- of `job:accepted` or from joining its chat.
pub data AcceptOutcome : Type 0 where
  done fails done_then_throws : AcceptOutcome

pub data Decision : Type 0 where
  no_handler throws accept reject hold : Decision

-- A job of the response, with what the agent and the handler do when the loop comes to it.
pub record Job : Type 0 where
  pub id : Option Str
  pub has_hash : Bool
  pub running : Bool
  pub decision : Decision
  -- `(this.wif || this.signer) && this.iAddress`
  pub can_sign : Bool
  pub outcome : AcceptOutcome

abbrev pub emit : JobEvent → Agent → Agent
emit e a = record a { events = a.events ++ e ∷ [] }

-- `this.seenJobIds.add(job.id); clearAcceptFailure(...)`
unfoldable pub mark_seen : Str → Agent → Agent
mark_seen id a = record a {
  seen = add str_discrete id a.seen;
  failures = clear_accept_failure a.failures id;
}

-- The two places that record a failure do the same.
unfoldable pub fail_accept : Str → Agent → Agent
unfolding record_accept_failure mark_seen
fail_accept id a =
    let (failures, r) = record_accept_failure a.failures id max_accept_attempts in
    if r.give_up
    then emit (abandoned id r.attempts) (mark_seen id (record a { failures = failures }))
    else emit (accept_failed id r.attempts) (record a { failures = failures })

abbrev pub conclude_accept : Str → AcceptOutcome → Agent → Agent
conclude_accept id fails a = fail_accept id a
conclude_accept id done a = emit (accepted id) (mark_seen id a)
conclude_accept id done_then_throws a = fail_accept id (emit (accepted id) (mark_seen id a))

unfoldable pub try_accept : Str → Job → Agent → Agent
unfolding fail_accept mark_seen
try_accept id job a =
    if not job.can_sign
    then emit (cannot_accept id) a
    else if not job.has_hash
    then fail_accept id a
    else conclude_accept id job.outcome a

abbrev pub decide : Str → Job → Decision → Agent → Agent
decide id job no_handler a = mark_seen id a
decide id job throws a = emit (job_error id) a
decide id job accept a = try_accept id job a
decide id job reject a = emit (rejected id) (mark_seen id a)
decide id job hold a = a

-- The body of the loop, for a job that has an id.
unfoldable pub process_job : Str → Job → Agent → Agent
unfolding try_accept mark_seen
process_job id job a =
    if has str_discrete id a.seen then a else decide id job job.decision (emit (requested id) a)

-- `if (!job.id) continue`: an empty id is no id.
abbrev pub process : Job → Option Str → Agent → Agent
process job none a = a
process job (some []) a = a
process job (some (c ∷ cs)) a = process_job (c ∷ cs) job a

unfoldable pub process_jobs : List Job → Agent → Agent
process_jobs [] a = a
process_jobs (job ∷ jobs) a =
    let rest = process_jobs jobs (process job job.id a) in if not job.running then a else rest

-- `new Set(allJobs.map((j) => j.id).filter((id) => !!id))`
abbrev pub add_id : Option Str → List Str → List Str
add_id none ids = ids
add_id (some []) ids = ids
add_id (some (c ∷ cs)) ids = add str_discrete (c ∷ cs) ids

abbrev pub pending_ids : List Job → List Str
pending_ids [] = []
pending_ids (job ∷ jobs) = add_id job.id (pending_ids jobs)

-- `checkForJobs`; `none` is a `getMyJobs` that throws.
unfoldable pub check_for_jobs : (max_per_poll : ℕ) → Option (List Job) → Agent → Agent
unfolding process_jobs evict prune_accept_failures
check_for_jobs max_per_poll none a = emit poll_error a
check_for_jobs max_per_poll (some all_jobs) a =
    let a' = process_jobs (take max_per_poll all_jobs) a in
    record a' {
      seen = evict max_seen_jobs a'.seen;
      failures = prune_accept_failures a'.failures (pending_ids all_jobs);
    }

-- A history of polls.
unfoldable pub run_polls : (max_per_poll : ℕ) → List (Option (List Job)) → Agent → Agent
unfolding check_for_jobs
run_polls max_per_poll [] a = a
run_polls max_per_poll (p ∷ ps) a = run_polls max_per_poll ps (check_for_jobs max_per_poll p a)
