-- ===== src/Payment/Fewest.antt =====
-- The coin selection of src/tx/payment.ts: it covers the target from the given outputs whenever they
-- can, and with as few of them as possible.
use mathlib.Core.List.{Perm}
use mathlib.Core.List.Perm
use j41_sovagent_sdk.Prelude.{
  dec_lt, ◌↔◌, ℕ, zero, suc, ◌+◌, ◌≤◌, ◌<◌, ◌≡◌, refl, ap, List, [], ◌∷◌, ◌++◌, arith, length, take,
  ltb, leb, Bool-cases, inl, inr,
}
use j41_sovagent_sdk.Payment.{
  Coins, Selection, ok, err, insufficient_funds, select_utxos, Utxo, insert_utxo, sort_utxos, pick,
}

abbrev pub value : List Utxo → ℕ
value [] = 0
value (u ∷ us) = u.satoshis + value us

value-insert_utxo : (u : Utxo) (xs : List Utxo) → value (insert_utxo u xs) ≡ u.satoshis + value xs
unfolding insert_utxo
value-insert_utxo u [] = refl
value-insert_utxo u (x ∷ xs) = ground (arith, value-insert_utxo u xs)

pub value-sort_utxos : (us : List Utxo) → value (sort_utxos us) ≡ value us
unfolding sort_utxos
value-sort_utxos [] = refl
value-sort_utxos (u ∷ us) = omega (arith, value-insert_utxo u (sort_utxos us), value-sort_utxos us)

insert_utxo-perm : (u : Utxo) (xs : List Utxo) → Perm (insert_utxo u xs) (u ∷ xs)
unfolding insert_utxo
insert_utxo-perm u [] = Perm.refl (u ∷ [])
insert_utxo-perm u (x ∷ xs) = elim (Bool-cases (ltb u.satoshis x.satoshis)) [
  | inl later ↦ rw later (Perm.trans (Perm.cons x (insert_utxo-perm u xs)) (Perm.swap u x xs))
  | inr here ↦ rw here (Perm.refl (u ∷ x ∷ xs))
]

pub sort_utxos-perm : (us : List Utxo) → Perm (sort_utxos us) us
unfolding sort_utxos
sort_utxos-perm [] = Perm.nil
sort_utxos-perm (u ∷ us) =
    Perm.trans (insert_utxo-perm u (sort_utxos us)) (Perm.cons u (sort_utxos-perm us))

-- Values fall along the list and stay under the bound.
abbrev IsFalling : ℕ → List Utxo → Type 0
IsFalling b [] = Unit
IsFalling b (u ∷ us) = (u.satoshis ≤ b) × IsFalling u.satoshis us

IsFalling-mono : (a b : ℕ) (us : List Utxo) → a ≤ b → IsFalling a us → IsFalling b us
IsFalling-mono a b [] h f = tt
IsFalling-mono a b (u ∷ us) h f = (omega arith, f.1)

insert_utxo-IsFalling :
    (b : ℕ) (u : Utxo) (xs : List Utxo)
    → u.satoshis ≤ b
    → IsFalling b xs
    → IsFalling b (insert_utxo u xs)
unfolding insert_utxo
insert_utxo-IsFalling b u [] h f = (h, tt)
insert_utxo-IsFalling b u (x ∷ xs) h f =
    ground (arith, insert_utxo-IsFalling x.satoshis u xs, IsFalling-mono x.satoshis u.satoshis xs)

sort_utxos-IsFalling : (us : List Utxo) → IsFalling (value us) (sort_utxos us)
unfolding sort_utxos
sort_utxos-IsFalling [] = tt
sort_utxos-IsFalling (u ∷ us) =
    insert_utxo-IsFalling (u.satoshis + value us) u (sort_utxos us) (omega arith) (
      IsFalling-mono (value us) (u.satoshis + value us) (sort_utxos us) (omega arith)
        (sort_utxos-IsFalling us))

-- The value of the `m` largest outputs.
abbrev best : ℕ → List Utxo → ℕ
best m us = value (take m us)

best_step : (m b : ℕ) (xs : List Utxo) → IsFalling b xs → best (suc m) xs ≤ b + best m xs
best_step m b [] f = omega arith
best_step zero b (x ∷ xs) f = omega arith
best_step (suc m) b (x ∷ xs) f = omega (arith, best_step m x.satoshis xs f.1)

best_keep :
    (m b : ℕ) (u : Utxo) (xs : List Utxo)
    → IsFalling b xs
    → u.satoshis + best m xs ≤ best (suc m) (insert_utxo u xs)
unfolding insert_utxo
best_keep m b u [] f = ground arith
best_keep zero b u (x ∷ xs) f = ground (arith, best_keep zero x.satoshis u xs f.1)
best_keep (suc m) b u (x ∷ xs) f = ground (arith, best_keep m x.satoshis u xs f.1)

best_skip :
    (m b : ℕ) (u : Utxo) (xs : List Utxo) → IsFalling b xs → best m xs ≤ best m (insert_utxo u xs)
unfolding insert_utxo
best_skip zero b u xs f = omega arith
best_skip (suc m) b u [] f = ground arith
best_skip (suc m) b u (x ∷ xs) f = elim (Bool-cases (ltb u.satoshis x.satoshis)) [
  | inl later ↦ rw later (omega (arith, best_skip m x.satoshis u xs f.1))
  | inr here ↦ rw here (best_step m u.satoshis (x ∷ xs) (ground arith, f.1))
]

-- A choice of some of the outputs.
pub data Choice : List Utxo → List Utxo → Type 0 where
  none_left : Choice [] []
  keep : {ys xs : List Utxo} (u : Utxo) → Choice ys xs → Choice (u ∷ ys) (u ∷ xs)
  skip : {ys xs : List Utxo} (u : Utxo) → Choice ys xs → Choice ys (u ∷ xs)

Choice-le-best : {ys xs : List Utxo} → Choice ys xs → value ys ≤ best (length ys) (sort_utxos xs)
unfolding sort_utxos
Choice-le-best none_left = omega arith
Choice-le-best (keep {ys = ys} {xs = xs} u c) = omega (
  arith,
  Choice-le-best c,
  best_keep (length ys) (value xs) u (sort_utxos xs) (sort_utxos-IsFalling xs),
)
Choice-le-best (skip {ys = ys} {xs = xs} u c) = omega (
  arith,
  Choice-le-best c,
  best_skip (length ys) (value xs) u (sort_utxos xs) (sort_utxos-IsFalling xs),
)

pick-total :
    (target total : ℕ) (us : List Utxo)
    → (pick target total us).total ≡ total + value (pick target total us).selected
unfolding pick
pick-total target total [] = omega arith
pick-total target total (u ∷ us) = ground (arith, pick-total target (total + u.satoshis) us)

-- What the loop leaves is the rest of the list.
pick-rest :
    (target total : ℕ) (us : List Utxo)
    → (rest : List Utxo) × ((pick target total us).selected ++ rest ≡ us)
unfolding pick
pick-rest target total [] = ([], refl)
pick-rest target total (u ∷ us) = elim (Bool-cases (leb target (total + u.satoshis))) [
  | inl enough ↦ (us, rw enough)
  | inr more ↦
      let (rest, e) = pick-rest target (total + u.satoshis) us in (rest, rw more (ap (◌∷◌ u) e))
]

pick-le : (target total : ℕ) (us : List Utxo) → (pick target total us).total ≤ total + value us
unfolding pick
pick-le target total [] = omega arith
pick-le target total (u ∷ us) = ground (arith, pick-le target (total + u.satoshis) us)

-- The loop ends short of the target only when nothing is left.
pick-short :
    (target total : ℕ) (us : List Utxo)
    → (pick target total us).total < target
    → (pick target total us).total ≡ total + value us
unfolding pick
pick-short target total [] h = omega arith
pick-short target total (u ∷ us) h = ground (arith, pick-short target (total + u.satoshis) us)

-- One output fewer would not have reached it.
pick-needs :
    (target total m : ℕ) (us : List Utxo)
    → total < target
    → m < length (pick target total us).selected
    → total + best m us < target
unfolding pick
pick-needs target total m [] h k = absurd (omega arith)
pick-needs target total zero (u ∷ us) h k = omega arith
pick-needs target total (suc m) (u ∷ us) h k = elim (Bool-cases (leb target (total + u.satoshis))) [
  | inl enough ↦ absurd (omega (arith, rw (enough) at k))
  | inr more ↦
      omega (arith, pick-needs target (total + u.satoshis) m us (ground arith) (ground arith))
]

module _ (coins : Coins) (us : List Utxo) (target : coins.Amount) where
  abbrev need : ℕ
  need = coins.to_sats target

  abbrev picked : Selection
  picked = pick need 0 (sort_utxos us)

  -- A successful selection is a part of the given outputs, its total is the sum of its values, and it
  -- reaches the target.
  pub select_utxos_covers :
      (s : Selection)
      → select_utxos coins us target ≡ ok s
      → (s.total ≡ value s.selected)
        × (coins.to_sats target ≤ s.total)
        × ((rest : List Utxo) × Perm (s.selected ++ rest) us)
  unfolding select_utxos
  select_utxos_covers s e =
      let same : picked ≡ s = ground arith in
      let (rest, parts) = pick-rest need 0 (sort_utxos us) in
      (
        ground (arith, pick-total need 0 (sort_utxos us)),
        ground arith,
        (rest, rw (← same, parts) (sort_utxos-perm us)),
      )

  -- It fails exactly when all outputs together fall short.
  pub select_utxos-err_iff :
      (select_utxos coins us target ≡ err (insufficient_funds (coins.to_sats target) (value us)))
      ↔ (value us < coins.to_sats target)
  unfolding select_utxos
  select_utxos-err_iff = ground (
    arith,
    pick-short need 0 (sort_utxos us),
    pick-total need 0 (sort_utxos us),
    value-sort_utxos us,
    pick-le need 0 (sort_utxos us),
  )

  -- No choice among the given outputs that reaches the target has fewer of them.
  pub select_utxos_fewest :
      (s : Selection) {ys : List Utxo}
      → select_utxos coins us target ≡ ok s
      → 0 < coins.to_sats target
      → Choice ys us
      → coins.to_sats target ≤ value ys
      → length s.selected ≤ length ys
  unfolding select_utxos
  select_utxos_fewest s {ys} e pos c h = elim (dec_lt (length ys) (length s.selected)) [
    | no few ↦ omega arith
    | yes more ↦
        let same : picked ≡ s = ground arith in
        absurd (
          omega (
            arith,
            Choice-le-best c,
            pick-needs need 0 (length ys) (sort_utxos us) pos (rw same more),
          ))
  ]
