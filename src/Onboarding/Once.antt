-- ===== src/Onboarding/Once.antt =====
-- How often the steps of src/onboarding/finalize.ts are done over runs that are broken off and taken up
-- again.
use j41_sovagent_sdk.Prelude.{ℕ, ◌+◌, ◌≤◌, ◌==◌, Bool, List, [], ◌∷◌, if◌then◌else◌, ltb}
use j41_sovagent_sdk.Onboarding.{rank, Effect, done, service, State}

-- How often step `k` was done.
abbrev pub times : ℕ → List Effect → ℕ
times k [] = 0
times k (done j ∷ es) = (if j == k then 1 else 0) + times k es
times k (service name ∷ es) = times k es

abbrev bit : Bool → ℕ
bit b = if b then 1 else 0

-- A step is done once at most, and not before its stage.
abbrev IsOnce : ℕ → State → Type 0
IsOnce k s = times k s.effects ≤ bit (ltb k (rank s.stage))
