-- ===== src/Session/Tests.antt =====
-- Runs of src/buyer/session.ts on concrete data.
use j41_sovagent_sdk.Prelude.{
  ℕ, zero, suc, ◌*◌, ◌≡◌, refl, true, [], ◌∷◌, Option, some, Str, codes, arith, inl, inr,
  str_discrete,
}
use j41_sovagent_sdk.Prelude.Int.{pos}
use j41_sovagent_sdk.Session.{
  JobPayment, finite, Job, SessionConfig, implausible_fee, outputs_of, Platform, expired, wait,
}
use j41_sovagent_sdk.Session.Wait.{Sleeps, Ends, wait-Ends}
use j41_sovagent_sdk.Session.Replies.{
  no_waits, run, send_and_wait, times_out, message, messages, waiter, configured, run_overlapping,
}

abbrev seller : Str
seller = codes "RSe11erSe11erSe11erSe11erSe11er"

abbrev payment_of : ℕ → JobPayment
payment_of fee = record {
  address = some seller;
  platform_fee_address = some seller;
  fee_amount = some (finite (pos fee));
}

abbrev job_with : Str → Job
job_with s = record { id = codes "j1"; status = s; payment = some (payment_of 5) }

abbrev config : SessionConfig
config = record { amount = 100; own_address = codes "iBuyer"; auto_end_idle_sec = 60 }

-- The job is in progress at the third poll.
abbrev answer : ℕ → Option Job
answer zero = some (job_with (codes "requested"))
answer (suc zero) = some (job_with (codes "accepted"))
answer (suc (suc k)) = some (job_with (codes "in_progress"))

abbrev platform : Platform
platform = record {
  created = some (job_with (codes "requested"));
  paid = some (codes "t1");
  recorded = true;
  start_wait = 0;
  clock = λ k. 15000 * k;
  poll = answer;
  chat = true;
  now = 0;
}

-- It never is.
abbrev silent : Platform
silent = record platform { poll = λ k. some (job_with (codes "requested")) }

platform-Sleeps : Sleeps platform
platform-Sleeps = record { begins = omega arith; sleeps = λ k. omega arith }

silent-Sleeps : Sleeps silent
silent-Sleeps = record { begins = omega arith; sleeps = λ k. omega arith }

-- A silent platform is asked sixty times.
wait-silent : wait silent 61 0 ≡ some (expired, 60)
unfolding wait str_discrete
wait-silent = refl

outputs_fair :
    outputs_of 100 (some (payment_of 5))
    ≡ inr (record { address = seller; amount = 100 } ∷ record { address = seller; amount = 5 } ∷ [])
outputs_fair = refl

outputs_unfair : outputs_of 100 (some (payment_of 101)) ≡ inl implausible_fee
outputs_unfair = refl

wait-Ends_example : Ends (wait platform 61 0)
wait-Ends_example = wait-Ends platform 61 platform-Sleeps (omega arith)

-- Two messages come after the first of two waits timed out.
run_overlapping_example :
    run (send_and_wait 1 ∷ send_and_wait 2 ∷ times_out 1 ∷ messages 2) no_waits ≡ record {
      on_message = configured;
      waits = (2, waiter 1 configured) ∷ [];
      resolved = [];
      rejected = 1 ∷ [];
      handed_on = 2;
    }
run_overlapping_example = run_overlapping 1 2 2 (omega arith)

-- One wait is resolved by the message, and so are two that overlap.
run_resolves :
    (run (send_and_wait 1 ∷ send_and_wait 2 ∷ message ∷ []) no_waits).resolved ≡ 2 ∷ 1 ∷ []
unfolding run
run_resolves = refl
