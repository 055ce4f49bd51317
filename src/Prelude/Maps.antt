-- ===== src/Prelude/Maps.antt =====
-- JavaScript `Map` and `Set`: association lists and lists in insertion order.
use Prim.Native.Nat.{suc, ◌≤◌}
use mathlib.Core.Path.{◌≡◌, refl, ap}
use mathlib.Core.Logic.{ite, if_neg}
use mathlib.Core.Bool.{Bool, true, false}
use mathlib.Core.Option.{Option, none, some}
use mathlib.Core.HLevel.{⊥_prop}
use mathlib.Core.Logic.Or
use mathlib.Core.List.{
  List, [], ◌∷◌, ◌++◌, Mem, not-mem-nil, mem-cons_self, mem-cons_of_mem, eq-or-mem_of_mem-cons,
}
use native.Mathlib.Omega.{arith}
use j41_sovagent_sdk.Prelude.Lists.{length}
use j41_sovagent_sdk.Prelude.Tests.{if◌then◌else◌}

module _ {ℓ} {K V : Type ℓ} (dec : Discrete K) where
  unfoldable pub get : K → List (K × V) → Option V
  get k [] = none
  get k ((j, v) ∷ m) = ite (dec j k) (some v) (get k m)

  -- An existing key keeps its place.
  unfoldable pub put : K → V → List (K × V) → List (K × V)
  put k v [] = (k, v) ∷ []
  put k v ((j, w) ∷ m) = ite (dec j k) ((j, v) ∷ m) ((j, w) ∷ put k v m)

  unfoldable pub remove : K → List (K × V) → List (K × V)
  remove k [] = []
  remove k ((j, w) ∷ m) = ite (dec j k) (remove k m) ((j, w) ∷ remove k m)

  pub get-put :
      (k j : K) (v : V) (m : List (K × V)) → get j (put k v m) ≡ ite (dec k j) (some v) (get j m)
  unfolding get put
  get-put k j v [] = refl
  get-put k j v ((i, w) ∷ m) = ground (arith, get-put k j v m)

  pub get-remove : (k j : K) (m : List (K × V)) → get j (remove k m) ≡ ite (dec k j) none (get j m)
  unfolding get remove
  get-remove k j [] = ground arith
  get-remove k j ((i, w) ∷ m) = ground (arith, get-remove k j m)

module _ {A : Type 0} (dec : Discrete A) where
  unfoldable pub has : A → List A → Bool
  has a [] = false
  has a (x ∷ xs) = ite (dec x a) true (has a xs)

  -- `Set.prototype.add`
  unfoldable pub add : A → List A → List A
  add a [] = a ∷ []
  add a (x ∷ xs) = ite (dec x a) (x ∷ xs) (x ∷ add a xs)

  pub has-add : (a b : A) (xs : List A) → has b (add a xs) ≡ ite (dec a b) true (has b xs)
  unfolding has add
  has-add a b [] = refl
  has-add a b (x ∷ xs) = ground (arith, has-add a b xs)

  pub length-add :
      (a : A) (xs : List A) → length (add a xs) ≡ (if has a xs then length xs else suc (length xs))
  unfolding add has
  length-add a [] = refl
  length-add a (x ∷ xs) = ground (arith, length-add a xs)

  pub length-add-le : (a : A) (xs : List A) → length (add a xs) ≤ suc (length xs)
  unfolding add
  length-add-le a [] = omega arith
  length-add-le a (x ∷ xs) = ground (arith, length-add-le a xs)

  pub not-mem_of_has : (a : A) (xs : List A) → has a xs ≡ false → ¬ Mem a xs
  unfolding has
  not-mem_of_has a [] h = not-mem-nil
  not-mem_of_has a (x ∷ xs) h = λ m.
      Or.elim ⊥_prop (eq-or-mem_of_mem-cons m) (λ here. ground arith)
        (not-mem_of_has a xs (ground arith))

  pub add_new : (a : A) (xs : List A) → ¬ Mem a xs → add a xs ≡ xs ++ a ∷ []
  unfolding add
  add_new a [] h = refl
  add_new a (x ∷ xs) h = elim (dec x a) [
    | yes e ↦ absurd (h (rw e mem-cons_self))
    | no n ↦ rw (if_neg _ n) (ap (◌∷◌ x) (add_new a xs (λ m. h (mem-cons_of_mem x m))))
  ]

  -- `Set.prototype.delete`
  unfoldable pub delete : A → List A → List A
  delete a [] = []
  delete a (x ∷ xs) = ite (dec x a) (delete a xs) (x ∷ delete a xs)

  pub has-delete : (a b : A) (xs : List A) → has b (delete a xs) ≡ ite (dec a b) false (has b xs)
  unfolding has delete
  has-delete a b [] = ground arith
  has-delete a b (x ∷ xs) = ground (arith, has-delete a b xs)
