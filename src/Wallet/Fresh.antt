-- ===== src/Wallet/Fresh.antt =====
-- The lists of src/agent.ts that hold no output twice: what `mergeUtxos` keeps, and what stays so
-- under a filter and under a selection.
use mathlib.Core.List.{
  Mem, Nodup, Perm, Sublist, Nodup-cons, Nodup-nil, Nodup-append, not-mem-nil, mem-cons_self,
  eq-or-mem_of_mem-cons, append_assoc, append-nil, map-append, sublist-append_left,
}
use mathlib.Core.List.Perm
use mathlib.Core.List.Nodup
use mathlib.Core.List.Sublist
use mathlib.Core.HLevel.{⊥_prop}
use mathlib.Core.Logic.Or
use j41_sovagent_sdk.Prelude.{
  ℕ, ◌≡◌, ◌≢◌, sym, ◌∙◌, Bool, false, ◌||◌, List, [], ◌∷◌, ◌++◌, arith, All, All-mono, filter, Str,
  str_discrete, Bool-cases, inl, inr,
}
use j41_sovagent_sdk.Prelude.Maps.{has, add, has-add, not-mem_of_has, add_new}
use j41_sovagent_sdk.Payment.{Utxo}
use j41_sovagent_sdk.Wallet.{key, keys, unspent, add_all}

pub add_all_new : (ks xs : List Str) → Nodup (xs ++ ks) → add_all ks xs ≡ xs ++ ks
unfolding add_all
add_all_new [] xs d = sym (append-nil xs)
add_all_new (k ∷ ks) xs d =
    let shifted = append_assoc xs (k ∷ []) ks in
    let apart = (Nodup-append.0 d).2 in
    rw (add_new str_discrete k xs (λ m. apart k m mem-cons_self))
      (add_all_new ks (xs ++ k ∷ []) (rw shifted d) ∙ shifted)

module _ (show : ℕ → Str) where
  All-not-mem : (k : Str) (us : List Utxo) → All (λ u. key show u ≢ k) us → ¬ Mem k (keys show us)
  All-not-mem k [] h = not-mem-nil
  All-not-mem k (u ∷ us) h =
      λ m. Or.elim ⊥_prop (eq-or-mem_of_mem-cons m) (λ here. h.0 (sym here)) (All-not-mem k us h.1)

  unspent-new :
      (spent seen : List Str) (us : List Utxo)
      → All
          (λ u.
            (has str_discrete (key show u) spent ≡ false)
            × (has str_discrete (key show u) seen ≡ false))
          (unspent show spent seen us)
  unfolding unspent
  unspent-new spent seen [] = tt
  unspent-new spent seen (u ∷ us) =
      let k = key show u in
      elim (Bool-cases (has str_discrete k spent || has str_discrete k seen)) [
        | inl old ↦ rw old (unspent-new spent seen us)
        | inr new ↦ rw new (
          (ground arith, ground arith),
          All-mono _ _ (unspent show spent (add str_discrete k seen) us)
              (λ v h. (h.0, ground (arith, h.1, has-add str_discrete k (key show v) seen)))
              (unspent-new spent (add str_discrete k seen) us),
        )
      ]

  unspent-Nodup :
      (spent seen : List Str) (us : List Utxo) → Nodup (keys show (unspent show spent seen us))
  unfolding unspent
  unspent-Nodup spent seen [] = Nodup-nil
  unspent-Nodup spent seen (u ∷ us) =
      let k = key show u in
      elim (Bool-cases (has str_discrete k spent || has str_discrete k seen)) [
        | inl old ↦ rw old (unspent-Nodup spent seen us)
        | inr new ↦ rw new (
            Nodup-cons.1 (
              All-not-mem k (unspent show spent (add str_discrete k seen) us) (
                  All-mono _ _ (unspent show spent (add str_discrete k seen) us)
                    (λ v h e. ground (arith, h.1, has-add str_discrete k (key show v) seen))
                    (unspent-new spent (add str_discrete k seen) us)),
              unspent-Nodup spent (add str_discrete k seen) us,
            ))
      ]

  -- Nothing that is merged was spent, and nothing stands in it twice.
  pub unspent-Nodup_spent :
      (spent seen : List Str) (us : List Utxo)
      → Nodup spent
      → Nodup (spent ++ keys show (unspent show spent seen us))
  unspent-Nodup_spent spent seen us d = Nodup-append.1 (
    d,
    unspent-Nodup spent seen us,
    λ a m. All-not-mem a (unspent show spent seen us) (
        All-mono _ _ (unspent show spent seen us)
          (λ u h e. not-mem_of_has str_discrete (key show u) spent h.0 (rw e m))
          (unspent-new spent seen us)),
  )

  keys-filter :
      (p : Utxo → Bool) (us : List Utxo) → Sublist (keys show (filter p us)) (keys show us)
  keys-filter p [] = Sublist.refl []
  keys-filter p (u ∷ us) = elim (Bool-cases (p u)) [
    | inl kept ↦ rw kept (Sublist.cons-cons (key show u) (keys-filter p us))
    | inr gone ↦ rw gone (Sublist.cons (key show u) (keys-filter p us))
  ]

  pub Nodup-filter :
      (spent : List Str) (p : Utxo → Bool) (us : List Utxo)
      → Nodup (spent ++ keys show us)
      → Nodup (spent ++ keys show (filter p us))
  Nodup-filter spent p us d =
      Nodup.sublist (Sublist.append (Sublist.refl spent) (keys-filter p us)) d

  pub Nodup-part :
      (spent : List Str) (part rest us : List Utxo)
      → Perm (part ++ rest) us
      → Nodup (spent ++ keys show us)
      → Nodup (spent ++ keys show part)
  Nodup-part spent part rest us e d =
      let all : Nodup (spent ++ keys show (part ++ rest)) =
        Perm.nodup (Perm.append_left spent (Perm.symm (Perm.map (key show) e))) d in
      Nodup.sublist
        (Sublist.append (Sublist.refl spent) (
          rw (map-append (key show) part rest)
            (sublist-append_left (keys show part) (keys show rest))))
        all
