-- ===== src/Onboarding/Again.antt =====
-- The services of a run of src/onboarding/finalize.ts that is broken off among them.
use j41_sovagent_sdk.Prelude.{
  ◌≡◌, refl, ap, ◌∙◌, Bool, true, false, List, [], ◌∷◌, ◌++◌, map, some, Str,
}
use j41_sovagent_sdk.Onboarding.{
  profile_registered, Effect, service, State, Run, register_services, finalize_onboarding, run_all,
}

-- Services registered one after the other.
abbrev pub after : List Str → List Effect → List Effect
after [] es = es
after (n ∷ ns) es = after ns (service n ∷ es)

-- Services whose registration succeeds, and one whose does or does not.
abbrev pub offer : List Str → Str → Bool → List (Str × Bool)
offer ns last succeeds = map (λ n. (n, true)) ns ++ (last, succeeds) ∷ []

abbrev pub at_services : Bool → List Effect → State
at_services completed es = record {
  stage = profile_registered;
  completed = completed;
  effects = es;
}

register_services-offer :
    (ns : List Str) (last : Str) (ok completed : Bool) (es : List Effect)
    → register_services (offer ns last ok) (at_services completed es)
      ≡ register_services ((last, ok) ∷ []) (at_services completed (after ns es))
register_services-offer [] last ok completed es = refl
register_services-offer (n ∷ ns) last ok completed es =
    register_services-offer ns last ok completed (service n ∷ es)

finalize_onboarding-broken :
    (r : Run) (ns : List Str) (last : Str) (completed : Bool) (es : List Effect)
    → finalize_onboarding
        (record r { services = some (offer ns last false) })
        (at_services completed es)
      ≡ (at_services completed (after ns es), false)
unfolding finalize_onboarding
finalize_onboarding-broken r ns last completed es =
    rw (register_services-offer ns last false completed es) refl

finalize_onboarding-whole :
    (r : Run) (ns : List Str) (last : Str) (completed : Bool) (es : List Effect)
    → (finalize_onboarding
        (record r { services = some (offer ns last true) })
        (at_services completed es)).0.effects
      ≡ service last ∷ after ns es
unfolding finalize_onboarding
finalize_onboarding-whole r ns last completed es =
    rw (register_services-offer ns last true completed es) refl

-- When the last of several services fails to register, and a second run registers all of them, each but
-- the last has been registered twice.
pub run_all-again :
    (first second : Run) (ns : List Str) (last : Str) (completed : Bool) (es : List Effect)
    → (run_all
        (record first { services = some (offer ns last false) }
          ∷ record second { services = some (offer ns last true) }
          ∷ [])
        (at_services completed es)).effects
      ≡ service last ∷ after ns (after ns es)
unfolding run_all
run_all-again first second ns last completed es =
    ap
      (λ o.
        (finalize_onboarding (record second { services = some (offer ns last true) })
          o.0).0.effects)
      (finalize_onboarding-broken first ns last completed es)
    ∙ finalize_onboarding-whole second ns last completed (after ns es)
