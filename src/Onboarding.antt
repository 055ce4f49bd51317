-- ===== src/Onboarding.antt =====
-- src/onboarding/finalize.ts, `finalizeOnboarding`: the stages of an onboarding, which may be broken off
-- and taken up again. What the hooks, the prompts and the platform do in a run is an argument.
pub mod Again
pub mod Once
pub mod Ready
mod Tests
use j41_sovagent_sdk.Prelude.{
  ℕ, ◌==◌, Bool, true, false, List, [], ◌∷◌, Option, none, some, Str, if◌then◌else◌,
}

pub data Stage : Type 0 where
  onboarded vdxf_published vdxf_verified indexed profile_registered services_registered ready :
      Stage

abbrev pub rank : Stage → ℕ
rank onboarded = 0
rank vdxf_published = 1
rank vdxf_verified = 2
rank indexed = 3
rank profile_registered = 4
rank services_registered = 5
rank ready = 6

-- What was done outside: steps by number, and services.
pub data Effect : Type 0 where
  done : ℕ → Effect
  service : Str → Effect

abbrev pub publish : ℕ
publish = 0

abbrev pub verify : ℕ
verify = 1

abbrev pub await_index : ℕ
await_index = 2

abbrev pub register : ℕ
register = 3

-- The state file, with the effects of all runs, the newest first.
pub record State : Type 0 where
  pub stage : Stage
  pub completed : Bool
  pub effects : List Effect

abbrev pub init : State
init = record { stage = onboarded; completed = false; effects = [] }

abbrev pub mark : Stage → State → State
mark stage s = record s { stage = stage }

abbrev pub effect : Effect → State → State
effect e s = record s { effects = e ∷ s.effects }

-- A hook that is not there, one that returns, and one that throws.
pub data Hook : Type 0 where
  absent returns throws : Hook

-- `registerWithJ41`
pub data Registration : Type 0 where
  registered : Registration
  signature_invalid : Registration
  conflict : Registration
  failed : Registration

-- `resolveProfile` and the registration: `retry` is the outcome of a new `authenticate` with the
-- registration after it, whichever of the two throws.
pub data Profile : Type 0 where
  unresolved : Profile
  no_profile : Profile
  profile : (first retry : Registration) → Profile

-- A run: `services` is none when their resolution throws; each comes with whether its
-- registration succeeds.
pub record Run : Type 0 where
  pub publish_vdxf : Hook
  pub verify_vdxf : Hook
  pub wait_for_indexed : Hook
  pub profile : Profile
  pub services : Option (List (Str × Bool))

-- The state that is left, and whether the call goes on.
abbrev pub Outcome : Type 0
Outcome = State × Bool

abbrev pub and_then : Outcome → (State → Outcome) → Outcome
and_then (s, true) next = next s
and_then (s, false) next = (s, false)

abbrev pub is_at : Stage → State → Bool
is_at stage s = rank s.stage == rank stage

abbrev pub run_hook : Stage → ℕ → Hook → State → Outcome
run_hook to k absent s = (mark to s, true)
run_hook to k returns s = (mark to (effect (done k) s), true)
run_hook to k throws s = (s, false)

-- The first three steps.
abbrev pub hook_step : (from to : Stage) → ℕ → Hook → State → Outcome
hook_step from to k hook s = if is_at from s then run_hook to k hook s else (s, true)

abbrev pub register_again : Registration → State → Outcome
register_again registered s = (mark profile_registered (effect (done register) s), true)
register_again conflict s = (mark profile_registered s, true)
register_again signature_invalid s = (s, false)
register_again failed s = (s, false)

abbrev pub register_profile : Profile → State → Outcome
register_profile unresolved s = (s, false)
register_profile no_profile s = (mark profile_registered s, true)
register_profile (profile registered retry) s =
    (mark profile_registered (effect (done register) s), true)
register_profile (profile signature_invalid retry) s = register_again retry s
register_profile (profile conflict retry) s = (s, false)
register_profile (profile failed retry) s = (s, false)

abbrev pub profile_step : Profile → State → Outcome
profile_step p s = if is_at indexed s then register_profile p s else (s, true)

abbrev pub register_services : List (Str × Bool) → State → Outcome
register_services [] s = (mark services_registered s, true)
register_services ((name, true) ∷ rest) s = register_services rest (effect (service name) s)
register_services ((name, false) ∷ rest) s = (s, false)

abbrev pub register_resolved : Option (List (Str × Bool)) → State → Outcome
register_resolved none s = (s, false)
register_resolved (some services) s = register_services services s

abbrev pub services_step : Option (List (Str × Bool)) → State → Outcome
services_step services s =
    if is_at profile_registered s then register_resolved services s else (s, true)

abbrev pub complete_step : State → Outcome
complete_step s =
    if is_at services_registered s
    then (mark ready (record s { completed = true }), true)
    else (s, true)

-- `finalizeOnboarding`
unfoldable pub finalize_onboarding : Run → State → Outcome
finalize_onboarding r s =
    and_then (hook_step onboarded vdxf_published publish r.publish_vdxf s) (λ s.
      and_then (hook_step vdxf_published vdxf_verified verify r.verify_vdxf s) (λ s.
        and_then (hook_step vdxf_verified indexed await_index r.wait_for_indexed s) (λ s.
          and_then (profile_step r.profile s)
            (λ s. and_then (services_step r.services s) complete_step))))

-- Runs on the same state file, each after the last one returned or threw.
unfoldable pub run_all : List Run → State → State
run_all [] s = s
run_all (r ∷ rs) s = run_all rs (finalize_onboarding r s).0
