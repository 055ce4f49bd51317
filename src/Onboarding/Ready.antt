-- ===== src/Onboarding/Ready.antt =====
-- Where a run of src/onboarding/finalize.ts ends.
use j41_sovagent_sdk.Prelude.{
  ℕ, suc, ◌≤◌, ◌≡◌, ◌≢◌, refl, Bool, true, false, List, [], ◌∷◌, arith, Option, none, some, Str,
  Bool-cases, inl, inr, All,
}
use j41_sovagent_sdk.Onboarding.{
  Stage, onboarded, vdxf_published, vdxf_verified, indexed, profile_registered, services_registered,
  ready, rank, service, publish, verify, await_index, State, effect, Hook, absent, returns, throws,
  registered, signature_invalid, conflict, failed, Profile, unresolved, no_profile, profile, Run,
  Outcome, and_then, is_at, run_hook, hook_step, register_profile, profile_step, register_services,
  register_resolved, services_step, complete_step, finalize_onboarding,
}

abbrev Reaches : ℕ → Outcome → Type 0
Reaches n o = o.1 ≡ true → n ≤ rank o.0.stage

and_then-Reaches :
    (m n : ℕ) (o : Outcome) (next : State → Outcome)
    → Reaches m o
    → ((s : State) → m ≤ rank s.stage → Reaches n (next s))
    → Reaches n (and_then o next)
and_then-Reaches m n (s, true) next r t = t s (r refl)
and_then-Reaches m n (s, false) next r t = λ h. cc

run_hook-Reaches :
    (to : Stage) (k : ℕ) (hook : Hook) (s : State) → Reaches (rank to) (run_hook to k hook s)
run_hook-Reaches to k absent s h = omega arith
run_hook-Reaches to k returns s h = omega arith
run_hook-Reaches to k throws s h = cc

hook_step-Reaches :
    (from to : Stage) (k : ℕ) (hook : Hook) (s : State)
    → rank to ≡ suc (rank from)
    → rank from ≤ rank s.stage
    → Reaches (rank to) (hook_step from to k hook s)
hook_step-Reaches from to k hook s f h = elim (Bool-cases (is_at from s)) [
  | inl e ↦ rw e (run_hook-Reaches to k hook s)
  | inr e ↦ rw e (λ g. ground (arith, f, h, e))
]

profile-Reaches : (p : Profile) (s : State) → Reaches 4 (register_profile p s)
profile-Reaches unresolved s h = cc
profile-Reaches no_profile s h = omega arith
profile-Reaches (profile registered retry) s h = omega arith
profile-Reaches (profile signature_invalid registered) s h = omega arith
profile-Reaches (profile signature_invalid conflict) s h = omega arith
profile-Reaches (profile signature_invalid signature_invalid) s h = cc
profile-Reaches (profile signature_invalid failed) s h = cc
profile-Reaches (profile conflict retry) s h = cc
profile-Reaches (profile failed retry) s h = cc

profile_step-Reaches : (p : Profile) (s : State) → 3 ≤ rank s.stage → Reaches 4 (profile_step p s)
profile_step-Reaches p s h = elim (Bool-cases (is_at indexed s)) [
  | inl e ↦ rw e (profile-Reaches p s)
  | inr e ↦ rw e (λ g. ground (arith, h, e))
]

register_services-Reaches :
    (services : List (Str × Bool)) (s : State) → Reaches 5 (register_services services s)
register_services-Reaches [] s h = omega arith
register_services-Reaches ((name, true) ∷ rest) s h =
    register_services-Reaches rest (effect (service name) s) h
register_services-Reaches ((name, false) ∷ rest) s h = cc

register_resolved-Reaches :
    (services : Option (List (Str × Bool))) (s : State) → Reaches 5 (register_resolved services s)
register_resolved-Reaches none s h = cc
register_resolved-Reaches (some services) s h = register_services-Reaches services s h

services_step-Reaches :
    (services : Option (List (Str × Bool))) (s : State)
    → 4 ≤ rank s.stage
    → Reaches 5 (services_step services s)
services_step-Reaches services s h = elim (Bool-cases (is_at profile_registered s)) [
  | inl e ↦ rw e (register_resolved-Reaches services s)
  | inr e ↦ rw e (λ g. ground (arith, h, e))
]

complete_step-Reaches : (s : State) → 5 ≤ rank s.stage → Reaches 6 (complete_step s)
complete_step-Reaches s h = elim (Bool-cases (is_at services_registered s)) [
  | inl e ↦ rw e (λ g. omega arith)
  | inr e ↦ rw e (λ g. ground (arith, h, e))
]

finalize_onboarding-Reaches : (r : Run) (s : State) → Reaches 6 (finalize_onboarding r s)
unfolding finalize_onboarding
finalize_onboarding-Reaches r s =
    and_then-Reaches 1 6 (hook_step onboarded vdxf_published publish r.publish_vdxf s) _
      (hook_step-Reaches onboarded vdxf_published publish r.publish_vdxf s refl (omega arith))
      (λ s h.
        and_then-Reaches 2 6 (hook_step vdxf_published vdxf_verified verify r.verify_vdxf s) _
          (hook_step-Reaches vdxf_published vdxf_verified verify r.verify_vdxf s refl h)
          (λ s h.
            and_then-Reaches 3 6 (hook_step vdxf_verified indexed await_index r.wait_for_indexed s)
              _ (hook_step-Reaches vdxf_verified indexed await_index r.wait_for_indexed s refl h)
              (λ s h.
                and_then-Reaches 4 6 (profile_step r.profile s) _
                  (profile_step-Reaches r.profile s h)
                  (λ s h.
                    and_then-Reaches 5 6 (services_step r.services s) _
                      (services_step-Reaches r.services s h) complete_step-Reaches))))

ready_of_rank : (stage : Stage) → 6 ≤ rank stage → stage ≡ ready
ready_of_rank ready h = refl
ready_of_rank onboarded h = ground arith
ready_of_rank vdxf_published h = ground arith
ready_of_rank vdxf_verified h = ground arith
ready_of_rank indexed h = ground arith
ready_of_rank profile_registered h = ground arith
ready_of_rank services_registered h = ground arith

-- What may happen to a profile without the run being broken off.
abbrev pub goes_on : Profile → Bool
goes_on no_profile = true
goes_on (profile registered retry) = true
goes_on (profile signature_invalid registered) = true
goes_on (profile signature_invalid conflict) = true
goes_on _ = false

-- A run in which no hook throws, no profile breaks it off, and every service is registered.
pub record IsSmooth (r : Run) (services : List (Str × Bool)) : Type 0 where
  pub publishes : r.publish_vdxf ≢ throws
  pub verifies : r.verify_vdxf ≢ throws
  pub waits : r.wait_for_indexed ≢ throws
  pub settles : goes_on r.profile ≡ true
  pub resolves : r.services ≡ some services
  pub registers : All (λ s. s.1 ≡ true) services

and_then-returns :
    (o : Outcome) (next : State → Outcome)
    → o.1 ≡ true
    → ((s : State) → (next s).1 ≡ true)
    → (and_then o next).1 ≡ true
and_then-returns (s, true) next h n = n s
and_then-returns (s, false) next h n = h

run_hook-returns :
    (to : Stage) (k : ℕ) (hook : Hook) (s : State) → hook ≢ throws → (run_hook to k hook s).1 ≡ true
run_hook-returns to k absent s h = refl
run_hook-returns to k returns s h = refl
run_hook-returns to k throws s h = absurd (h refl)

hook_step-returns :
    (from to : Stage) (k : ℕ) (hook : Hook) (s : State)
    → hook ≢ throws
    → (hook_step from to k hook s).1 ≡ true
hook_step-returns from to k hook s h = elim (Bool-cases (is_at from s)) [
  | inl e ↦ rw e (run_hook-returns to k hook s h)
  | inr e ↦ rw e refl
]

profile-returns : (p : Profile) (s : State) → goes_on p ≡ true → (register_profile p s).1 ≡ true
profile-returns unresolved s h = cc
profile-returns no_profile s h = refl
profile-returns (profile registered retry) s h = refl
profile-returns (profile signature_invalid registered) s h = refl
profile-returns (profile signature_invalid conflict) s h = refl
profile-returns (profile signature_invalid signature_invalid) s h = cc
profile-returns (profile signature_invalid failed) s h = cc
profile-returns (profile conflict retry) s h = cc
profile-returns (profile failed retry) s h = cc

profile_step-returns : (p : Profile) (s : State) → goes_on p ≡ true → (profile_step p s).1 ≡ true
profile_step-returns p s h = elim (Bool-cases (is_at indexed s)) [
  | inl e ↦ rw e (profile-returns p s h)
  | inr e ↦ rw e refl
]

register_services-returns :
    (services : List (Str × Bool)) (s : State)
    → All (λ s. s.1 ≡ true) services
    → (register_services services s).1 ≡ true
register_services-returns [] s h = refl
register_services-returns ((name, true) ∷ rest) s (_, h) =
    register_services-returns rest (effect (service name) s) h
register_services-returns ((name, false) ∷ rest) s (h, _) = h

services_step-returns :
    (services : List (Str × Bool)) (s : State)
    → All (λ s. s.1 ≡ true) services
    → (services_step (some services) s).1 ≡ true
services_step-returns services s h = elim (Bool-cases (is_at profile_registered s)) [
  | inl e ↦ rw e (register_services-returns services s h)
  | inr e ↦ rw e refl
]

complete_step-returns : (s : State) → (complete_step s).1 ≡ true
complete_step-returns s = elim (Bool-cases (is_at services_registered s)) [
  | inl e ↦ rw e refl
  | inr e ↦ rw e refl
]

finalize_onboarding-returns :
    (r : Run) (services : List (Str × Bool)) (s : State)
    → IsSmooth r services
    → (finalize_onboarding r s).1 ≡ true
unfolding finalize_onboarding
finalize_onboarding-returns r services s h =
    and_then-returns (hook_step onboarded vdxf_published publish r.publish_vdxf s) _
      (hook_step-returns onboarded vdxf_published publish r.publish_vdxf s h.publishes)
      (λ s.
        and_then-returns (hook_step vdxf_published vdxf_verified verify r.verify_vdxf s) _
          (hook_step-returns vdxf_published vdxf_verified verify r.verify_vdxf s h.verifies)
          (λ s.
            and_then-returns (hook_step vdxf_verified indexed await_index r.wait_for_indexed s) _
              (hook_step-returns vdxf_verified indexed await_index r.wait_for_indexed s h.waits)
              (λ s.
                and_then-returns (profile_step r.profile s) _
                  (profile_step-returns r.profile s h.settles)
                  (λ s.
                    and_then-returns (services_step r.services s) _
                      (rw h.resolves (services_step-returns services s h.registers))
                      complete_step-returns))))

-- A run that returns leaves the onboarding ready, wherever it took it up.
pub finalize_onboarding-ready :
    (r : Run) (s : State)
    → (finalize_onboarding r s).1 ≡ true
    → (finalize_onboarding r s).0.stage ≡ ready
finalize_onboarding-ready r s h =
    ready_of_rank (finalize_onboarding r s).0.stage (finalize_onboarding-Reaches r s h)

-- A run in which no hook throws, the profile is skipped or registered, at the first attempt or at the
-- one after a new sign-in, where a conflict counts as registered, and every service is registered,
-- takes an onboarding from any state to ready.
pub finalize_onboarding-completes :
    (r : Run) (services : List (Str × Bool)) (s : State)
    → IsSmooth r services
    → ((finalize_onboarding r s).1 ≡ true) × ((finalize_onboarding r s).0.stage ≡ ready)
finalize_onboarding-completes r services s h =
    let returned = finalize_onboarding-returns r services s h in
    (returned, finalize_onboarding-ready r s returned)
