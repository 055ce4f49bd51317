-- ===== src/Session/Wait.antt =====
-- The wait of src/buyer/session.ts for a payment to be verified ends.
use j41_sovagent_sdk.Prelude.{
  ℕ, zero, suc, ◌+◌, ◌-◌, ◌*◌, ◌≤◌, ◌≡◌, refl, Option, none, some, arith, ltb, ◌===◌, Bool-cases,
  inl, inr,
}
use j41_sovagent_sdk.Session.{
  Platform, Job, Waited, started, failed, expired, poll_failed, job_over, in_progress, is_over,
  max_wait_ms, max_polls, on_poll, wait,
}

-- A poll is followed by fifteen seconds of sleep.
pub record Sleeps (p : Platform) : Type 0 where
  pub begins : p.start_wait ≤ p.clock 0
  pub sleeps : (k : ℕ) → p.clock k + 15000 ≤ p.clock (suc k)

-- A wait that ends, after at most `max_polls` polls.
abbrev pub Ends : Option (Waited × ℕ) → Type 0
Ends o = (w : Waited) × (n : ℕ) × (o ≡ some (w, n)) × (n ≤ max_polls)

on_poll-Ends :
    (k : ℕ) (o : Option Job) (rest : Option (Waited × ℕ))
    → suc k ≤ max_polls
    → Ends rest
    → Ends (on_poll k o rest)
on_poll-Ends k none rest h e = (failed poll_failed, suc k, refl, h)
on_poll-Ends k (some j) rest h e = elim (Bool-cases (j.status === in_progress)) [
  | inl f ↦ rw f (started j, suc k, refl, h)
  | inr f ↦ elim (Bool-cases (is_over j.status)) [
    | inl g ↦ rw (f, g) (failed (job_over j.status), suc k, refl, h)
    | inr g ↦ rw (f, g) e
  ]
]

wait_on-Ends :
    (p : Platform) (fuel k : ℕ)
    → Sleeps p
    → p.start_wait + 15000 * k ≤ p.clock k
    → k ≤ max_polls
    → suc max_polls ≤ fuel + k
    → Ends (wait p fuel k)
unfolding wait
wait_on-Ends p zero k s h l f = absurd (omega (arith, l, f))
wait_on-Ends p (suc fuel) k s h l f =
    elim (Bool-cases (ltb (p.clock k - p.start_wait) max_wait_ms)) [
      | inr e ↦ rw e (expired, k, refl, l)
      | inl e ↦
          let more : suc k ≤ max_polls = ground arith in
          rw e (
            on_poll-Ends k (p.poll k) (wait p fuel (suc k)) more (
              wait_on-Ends p fuel (suc k) s (omega (arith, h, s.sleeps k)) more (omega (arith, f))))
    ]

-- With that much fuel or more the wait ends, after at most 60 polls, whatever they answer, if the time
-- that passes between two polls is at least what the loop sleeps.
pub wait-Ends : (p : Platform) (fuel : ℕ) → Sleeps p → suc max_polls ≤ fuel → Ends (wait p fuel 0)
wait-Ends p fuel s h =
    wait_on-Ends p fuel 0 s (omega (arith, s.begins)) (omega arith) (omega (arith, h))
