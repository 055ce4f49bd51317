-- ===== src/Jobs/Retry.antt =====
-- src/jobs/accept-retry.ts in the poll of src/agent.ts: how often one job is tried.
use j41_sovagent_sdk.Prelude.{
  ℕ, ◌+◌, ◌≤◌, ◌≡◌, refl, true, false, List, [], ◌∷◌, ◌++◌, arith, Option, none, some, inl, inr,
  length, take, evict_small, Str, str_discrete, ◌===◌, Bool-cases, if◌then◌else◌, leb,
}
use j41_sovagent_sdk.Prelude.Maps.{get, put, has, get-put, get-remove, has-add}
use j41_sovagent_sdk.Jobs.{
  Agent, emit, Failures, decide, max_accept_attempts, conclude_accept, AcceptOutcome, init, Job,
  JobEvent, requested, accepted, rejected, cannot_accept, accept_failed, abandoned, job_error,
  poll_error, Decision, no_handler, throws, accept, reject, hold, done, fails, done_then_throws,
  max_seen_jobs, count, record_accept_failure, mark_seen, fail_accept, try_accept, process_job,
  process, process_jobs, pending_ids, prune_accept_failures, check_for_jobs, run_polls,
}

-- The failed attempts that were told of one job, the last one included.
abbrev pub failed_attempt : Str → JobEvent → ℕ
failed_attempt j (accept_failed id n) = if id === j then 1 else 0
failed_attempt j (abandoned id n) = if id === j then 1 else 0
failed_attempt j _ = 0

abbrev pub failed_attempts : Str → List JobEvent → ℕ
failed_attempts j [] = 0
failed_attempts j (e ∷ es) = failed_attempt j e + failed_attempts j es

failed_attempts-append :
    (j : Str) (xs : List JobEvent) (e : JobEvent)
    → failed_attempts j (xs ++ e ∷ []) ≡ failed_attempts j xs + failed_attempt j e
failed_attempts-append j [] e = omega arith
failed_attempts-append j (x ∷ xs) e = omega (arith, failed_attempts-append j xs e)

module _ (j : Str) where
  -- A job that is not settled has as many failures on its counter as were told of it, and fewer than
  -- the limit; a settled one had at most the limit.
  record IsTracked (a : Agent) : Type 0 where
    settled : has str_discrete j a.seen ≡ true → failed_attempts j a.events ≤ 5
    open_count :
        has str_discrete j a.seen ≡ false
        → (failed_attempts j a.events ≡ count (get str_discrete j a.failures))
          × (failed_attempts j a.events ≤ 4)

  mark_seen-IsTracked : (id : Str) (a : Agent) → IsTracked a → IsTracked (mark_seen id a)
  unfolding mark_seen
  mark_seen-IsTracked id a t = record {
    settled = λ h. ground (arith, t.settled, t.open_count);
    open_count = λ h. ground (
      arith,
      t.settled,
      t.open_count,
      has-add str_discrete id j a.seen,
      get-remove str_discrete id j a.failures,
    );
  }

  fail_accept-IsTracked :
      (id : Str) (a : Agent)
      → IsTracked a
      → (id ≡ j → failed_attempts j a.events ≤ 4)
      → IsTracked (fail_accept id a)
  unfolding fail_accept record_accept_failure mark_seen
  fail_accept-IsTracked id a t room =
      let n = count (get str_discrete id a.failures) + 1 in
      let told = failed_attempts-append j a.events (abandoned id n) in
      let told' = failed_attempts-append j a.events (accept_failed id n) in
      let counted = get-put str_discrete id j n a.failures in
      let seen = has-add str_discrete id j a.seen in
      let open_or = t.open_count in
      let gone = get-remove str_discrete id j (put str_discrete id n a.failures) in
      elim (Bool-cases (leb 5 n)) [
        | inl last ↦ rw last (record {
          settled = λ h. ground (arith, told, seen, t.settled, open_or, room);
          open_count = λ h. ground (arith, told, counted, seen, gone, t.settled, open_or, room);
        })
        | inr more ↦ rw more (record {
          settled = λ h. ground (arith, told', t.settled, room);
          open_count = λ h. ground (arith, told', counted, open_or, room);
        })
      ]

  -- An event that is no failure.
  emit-IsTracked :
      (e : JobEvent) (a : Agent) → failed_attempt j e ≡ 0 → IsTracked a → IsTracked (emit e a)
  emit-IsTracked e a z t =
      let told = failed_attempts-append j a.events e in
      record {
        settled = λ h. ground (arith, told, t.settled);
        open_count = λ h. ground (arith, told, t.open_count);
      }

  try_accept-IsTracked :
      (id : Str) (job : Job) (a : Agent)
      → has str_discrete id a.seen ≡ false
      → IsTracked a
      → IsTracked (try_accept id job a)
  unfolding try_accept mark_seen
  try_accept-IsTracked id job a new t = elim (Bool-cases job.can_sign) [
    | inr e ↦ rw e (emit-IsTracked (cannot_accept id) a refl t)
    | inl e1 ↦ elim (Bool-cases job.has_hash) [
      | inr e ↦ rw (e1, e) (fail_accept-IsTracked id a t room)
      | inl e2 ↦ rw (e1, e2) (go job.outcome)
    ]
  ]
    where
      room : id ≡ j → failed_attempts j a.events ≤ 4
      room e = ground (arith, t.open_count)

      go : (o : AcceptOutcome) → IsTracked (conclude_accept id o a)
      go fails = fail_accept-IsTracked id a t room
      go done = emit-IsTracked (accepted id) (mark_seen id a) refl (mark_seen-IsTracked id a t)
      go done_then_throws =
          fail_accept-IsTracked id (emit (accepted id) (mark_seen id a))
            (emit-IsTracked (accepted id) (mark_seen id a) refl (mark_seen-IsTracked id a t))
            (λ e. omega (arith, room e, failed_attempts-append j a.events (accepted id)))

  decide-IsTracked :
      (id : Str) (job : Job) (d : Decision) (a : Agent)
      → has str_discrete id a.seen ≡ false
      → IsTracked a
      → IsTracked (decide id job d a)
  decide-IsTracked id job no_handler a new t = mark_seen-IsTracked id a t
  decide-IsTracked id job throws a new t = emit-IsTracked (job_error id) a refl t
  decide-IsTracked id job accept a new t = try_accept-IsTracked id job a new t
  decide-IsTracked id job reject a new t =
      emit-IsTracked (rejected id) (mark_seen id a) refl (mark_seen-IsTracked id a t)
  decide-IsTracked id job hold a new t = t

  process-IsTracked :
      (job : Job) (id : Option Str) (a : Agent) → IsTracked a → IsTracked (process job id a)
  unfolding process_job
  process-IsTracked job none a t = t
  process-IsTracked job (some []) a t = t
  process-IsTracked job (some (c ∷ cs)) a t = elim (Bool-cases (has str_discrete (c ∷ cs) a.seen)) [
    | inl old ↦ rw old t
    | inr new ↦ rw new (
        decide-IsTracked (c ∷ cs) job job.decision (emit (requested (c ∷ cs)) a) new
          (emit-IsTracked (requested (c ∷ cs)) a refl t))
  ]

  process_jobs-IsTracked :
      (jobs : List Job) (a : Agent) → IsTracked a → IsTracked (process_jobs jobs a)
  unfolding process_jobs process_job
  process_jobs-IsTracked [] a t = t
  process_jobs-IsTracked (job ∷ jobs) a t = elim (Bool-cases job.running) [
    | inl e ↦
        rw e (process_jobs-IsTracked jobs (process job job.id a) (process-IsTracked job job.id a t))
    | inr e ↦ rw e t
  ]

  get-prune :
      (ids : List Str) (failures : Failures)
      → has str_discrete j ids ≡ true
      → get str_discrete j (prune_accept_failures failures ids) ≡ get str_discrete j failures
  unfolding prune_accept_failures get
  get-prune ids [] h = refl
  get-prune ids ((k, n) ∷ failures) h = ground (arith, get-prune ids failures h)

  -- The job is pending in every response, and the memory of settled jobs is not full.
  abbrev pub StaysPending : (max_per_poll : ℕ) → List (Option (List Job)) → Agent → Type 0
  StaysPending max [] a = Unit
  StaysPending max (none ∷ ps) a = StaysPending max ps (check_for_jobs max none a)
  StaysPending max (some jobs ∷ ps) a =
      (has str_discrete j (pending_ids jobs) ≡ true)
      × (length (process_jobs (take max jobs) a).seen ≤ max_seen_jobs)
      × StaysPending max ps (check_for_jobs max (some jobs) a)

  run_polls-IsTracked :
      (max : ℕ) (ps : List (Option (List Job))) (a : Agent)
      → StaysPending max ps a
      → IsTracked a
      → IsTracked (run_polls max ps a)
  unfolding run_polls check_for_jobs
  run_polls-IsTracked max [] a k t = t
  run_polls-IsTracked max (none ∷ ps) a k t =
      run_polls-IsTracked max ps _ k (emit-IsTracked poll_error a refl t)
  run_polls-IsTracked max (some jobs ∷ ps) a k t =
      let a' = process_jobs (take max jobs) a in
      let t' = process_jobs-IsTracked (take max jobs) a t in
      run_polls-IsTracked max ps (check_for_jobs max (some jobs) a) k.2 (
        rw (evict_small max_seen_jobs a'.seen k.1) (record {
          settled = t'.settled;
          open_count = λ h. rw (get-prune (pending_ids jobs) a'.failures k.0) (t'.open_count h);
        }))

  init-IsTracked : IsTracked init
  unfolding has get
  init-IsTracked = record { settled = λ h. omega arith; open_count = λ h. (refl, omega arith) }

  -- However long a job stays pending and however its accepts fail, at most five failed attempts are
  -- made for it. The conditions are that each response names it, and that the memory of settled jobs
  -- is not full.
  pub run_polls-at_most_five :
      (max : ℕ) (ps : List (Option (List Job)))
      → StaysPending max ps init
      → failed_attempts j (run_polls max ps init).events ≤ max_accept_attempts
  run_polls-at_most_five max ps k =
      let t = run_polls-IsTracked max ps init k init-IsTracked in
      elim (Bool-cases (has str_discrete j (run_polls max ps init).seen)) [
        | inl e ↦ t.settled e
        | inr e ↦ omega (arith, (t.open_count e).1)
      ]
