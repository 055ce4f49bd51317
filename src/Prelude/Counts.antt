-- ===== src/Prelude/Counts.antt =====
-- How often a text stands in a list.
use Prim.Native.Nat.{ℕ, ◌+◌}
use mathlib.Core.Path.{◌≡◌, refl}
use mathlib.Core.Bool.{Bool, not}
use mathlib.Core.List.{List, [], ◌∷◌, ◌++◌}
use native.Mathlib.Omega.{arith}
use j41_sovagent_sdk.Prelude.Tests.{if◌then◌else◌}
use j41_sovagent_sdk.Prelude.Lists.{filter}
use j41_sovagent_sdk.Prelude.Text.{Str, ◌===◌}

abbrev pub occ : Str → List Str → ℕ
occ j [] = 0
occ j (x ∷ xs) = (if x === j then 1 else 0) + occ j xs

module _ (j : Str) where
  pub occ-append : (xs ys : List Str) → occ j (xs ++ ys) ≡ occ j xs + occ j ys
  occ-append [] ys = omega arith
  occ-append (x ∷ xs) ys = omega (arith, occ-append xs ys)

  pub occ-filter :
      (p : Str → Bool) (xs : List Str)
      → occ j xs ≡ occ j (filter p xs) + occ j (filter (λ x. not (p x)) xs)
  occ-filter p [] = refl
  occ-filter p (x ∷ xs) = ground (arith, occ-filter p xs)
