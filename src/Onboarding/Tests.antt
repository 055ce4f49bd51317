-- ===== src/Onboarding/Tests.antt =====
-- Runs of src/onboarding/finalize.ts, and the theorems about it at concrete inputs.
use j41_sovagent_sdk.Prelude.{◌≡◌, refl, true, false, [], ◌∷◌, some, codes}
use j41_sovagent_sdk.Onboarding.{
  ready, done, service, publish, await_index, register, init, absent, returns, registered,
  signature_invalid, failed, profile, Run, State, finalize_onboarding, run_all,
}
use j41_sovagent_sdk.Onboarding.Again.{offer, at_services, run_all-again}
use j41_sovagent_sdk.Onboarding.Ready.{IsSmooth, finalize_onboarding-completes}

-- The second service is refused.
abbrev broken_off : Run
broken_off = record {
  publish_vdxf = returns;
  verify_vdxf = absent;
  wait_for_indexed = returns;
  profile = profile signature_invalid registered;
  services = some ((codes "a", true) ∷ (codes "b", false) ∷ []);
}

abbrev smooth : Run
smooth = record {
  publish_vdxf = returns;
  verify_vdxf = returns;
  wait_for_indexed = returns;
  profile = profile registered failed;
  services = some ((codes "a", true) ∷ (codes "b", true) ∷ []);
}

-- What was registered before the break is registered again.
resumed :
    (run_all (broken_off ∷ smooth ∷ []) init).effects
    ≡ service (codes "b")
      ∷ service (codes "a")
      ∷ service (codes "a")
      ∷ done register
      ∷ done await_index
      ∷ done publish
      ∷ []
unfolding run_all finalize_onboarding
resumed = refl

smooth-IsSmooth : IsSmooth smooth ((codes "a", true) ∷ (codes "b", true) ∷ [])
smooth-IsSmooth = record {
  publishes = λ h. cc;
  verifies = λ h. cc;
  waits = λ h. cc;
  settles = refl;
  resolves = refl;
  registers = (refl, (refl, tt));
}

abbrev half_done : State
half_done = run_all (broken_off ∷ []) init

finalize_onboarding-completes_example :
    ((finalize_onboarding smooth half_done).1 ≡ true)
    × ((finalize_onboarding smooth half_done).0.stage ≡ ready)
finalize_onboarding-completes_example =
    finalize_onboarding-completes smooth ((codes "a", true) ∷ (codes "b", true) ∷ []) half_done
      smooth-IsSmooth

run_all-again_example :
    (run_all
      (record broken_off { services = some (offer (codes "a" ∷ []) (codes "b") false) }
        ∷ record smooth { services = some (offer (codes "a" ∷ []) (codes "b") true) }
        ∷ [])
      (at_services false [])).effects
    ≡ service (codes "b") ∷ service (codes "a") ∷ service (codes "a") ∷ []
run_all-again_example = run_all-again broken_off smooth (codes "a" ∷ []) (codes "b") false []
