-- ===== src/Inbox/Buckets.antt =====
-- How the phases of `acceptInboxBatch` in src/agent.ts deal the items out, counted by id.
use j41_sovagent_sdk.Prelude.{
  ℕ, occ, ◌+◌, ◌≤◌, ◌≡◌, refl, sym, ap, ◌∙◌, Bool, not, List, [], ◌∷◌, ◌++◌, arith, Option, none,
  some, filter, Str, ◌===◌, Bool-cases, inl, inr, if◌then◌else◌, ltb,
}
use j41_sovagent_sdk.Prelude.Json.{Fields}
use j41_sovagent_sdk.Inbox.{Additions}
use j41_sovagent_sdk.Inbox.Batch.{
  Encoding, Ref, Candidate, Batch, Detail, Gathered, Verdict, defer, done, reject, keep, place,
  gate, gather, already_present, additions_byte_size, build_failed, rebuild_failed,
}
use j41_sovagent_sdk.Inbox.Commit.{
  Merge, Built, thrown, returned, refs, ids, with_reason, merge_items, is_chosen, builds, bisect,
  conclude_bisection, build_merged, collides, put_all, built_again, rebuild, not_built,
}

pub returned_inj : {A : Type 0} {a b : A} → returned a ≡ returned b → a ≡ b
returned_inj h = cc

abbrev pub bucket {ℓ} : {A : Type ℓ} → List (Ref × A) → List Str
bucket [] = []
bucket ((r, a) ∷ xs) = r.id ∷ bucket xs

abbrev pub item_ids : List (Ref × Option Detail) → List Str
item_ids = bucket

-- The ids that the merge still has to place.
abbrev pub candidate_ids : List Candidate → List Str
candidate_ids cs = ids (refs cs)

module _ (j : Str) where
  occ-candidates :
      (p : Candidate → Bool) (cs : List Candidate)
      → occ j (candidate_ids cs)
        ≡ occ j (candidate_ids (filter p cs)) + occ j (candidate_ids (filter (λ c. not (p c)) cs))
  occ-candidates p [] = refl
  occ-candidates p (c ∷ cs) = ground (arith, occ-candidates p cs)

  pub bucket-append {ℓ} :
      {A : Type ℓ} (xs ys : List (Ref × A))
      → occ j (bucket (xs ++ ys)) ≡ occ j (bucket xs) + occ j (bucket ys)
  bucket-append [] ys = omega arith
  bucket-append ((r, a) ∷ xs) ys = omega (arith, bucket-append xs ys)

  pub bucket-with_reason {ℓ} :
      {A : Type ℓ} (a : A) (rs : List Ref) → occ j (bucket (with_reason a rs)) ≡ occ j (ids rs)
  bucket-with_reason a [] = refl
  bucket-with_reason a (r ∷ rs) = omega (arith, bucket-with_reason a rs)

  pub ids-append : (xs ys : List Ref) → occ j (ids (xs ++ ys)) ≡ occ j (ids xs) + occ j (ids ys)
  ids-append [] ys = omega arith
  ids-append (r ∷ rs) ys = omega (arith, ids-append rs ys)

  -- The buckets of a batch together.
  abbrev pub placed : Batch → ℕ
  placed b =
      occ j b.already_done
      + occ j (bucket b.rejected)
      + occ j (bucket b.deferred)
      + occ j (ids b.written)

  module _ (encoding : Encoding) where
    occ-place :
        (ref : Ref) (v : Verdict) (g : Gathered)
        → occ j (candidate_ids (place encoding ref v g).candidates)
            + placed (place encoding ref v g).batch
          ≡ (if ref.id === j then 1 else 0) + (occ j (candidate_ids g.candidates) + placed g.batch)
    occ-place ref defer g = omega arith
    occ-place ref done g = omega arith
    occ-place ref (reject r) g = omega arith
    occ-place ref (keep entries) g = omega arith

    pub occ-gather :
        (timestamp : ℕ) (items : List (Ref × Option Detail))
        → occ j (item_ids items)
          ≡ occ j (candidate_ids (gather encoding timestamp items).candidates)
            + placed (gather encoding timestamp items).batch
    unfolding gather
    occ-gather timestamp [] = refl
    occ-gather timestamp ((ref, answer) ∷ rest) = omega (
      arith,
      occ-gather timestamp rest,
      occ-place ref (gate encoding timestamp ref answer) (gather encoding timestamp rest),
    )

    pub occ-merge :
        (on_chain : Fields) (max : ℕ) (merged : Additions) (bytes : ℕ) (cs : List Candidate)
        → occ j (candidate_ids cs)
          ≡ occ j (candidate_ids (merge_items encoding on_chain max merged bytes cs).chosen)
            + occ j (ids (merge_items encoding on_chain max merged bytes cs).present)
            + occ j (bucket (merge_items encoding on_chain max merged bytes cs).postponed)
    unfolding merge_items
    occ-merge on_chain max merged bytes [] = refl
    occ-merge on_chain max merged bytes (c ∷ cs) =
        let size = additions_byte_size encoding c.additions in
        let rest = occ-merge on_chain max merged bytes cs in
        elim (Bool-cases (already_present encoding on_chain c.additions)) [
          | inl e ↦ rw e (omega (arith, rest))
          | inr e1 ↦ elim (Bool-cases (collides c.additions merged)) [
            | inl e ↦ rw (e1, e) (omega (arith, rest))
            | inr e2 ↦ elim (Bool-cases (ltb max (bytes + size))) [
              | inl e ↦ rw (e1, e2, e) (omega (arith, rest))
              | inr e ↦
                  rw (e1, e2, e)
                    (omega (
                      arith,
                      occ-merge on_chain max (put_all c.additions merged) (bytes + size) cs,
                    ))
            ]
          ]
        ]

    -- The items that are chosen are among those that the merge saw.
    pub chosen-le :
        (on_chain : Fields) (max : ℕ) (merged : Additions) (bytes : ℕ) (cs : List Candidate)
        → occ j (candidate_ids (merge_items encoding on_chain max merged bytes cs).chosen)
          ≤ occ j (candidate_ids cs)
    chosen-le on_chain max merged bytes cs = omega (arith, occ-merge on_chain max merged bytes cs)

  -- The bisection tells a chosen item by its id.
  is_chosen_lem :
      (chosen : List Candidate) (c : Candidate)
      → c.ref.id ≡ j
      → is_chosen chosen c ≡ ltb 0 (occ j (candidate_ids chosen))
  is_chosen_lem [] c e = refl
  is_chosen_lem (d ∷ chosen) c e = ground (arith, is_chosen_lem chosen c e)

  occ-suspects :
      (chosen cs : List Candidate)
      → occ j (candidate_ids (filter (is_chosen chosen) cs))
        ≡ (if ltb 0 (occ j (candidate_ids chosen)) then occ j (candidate_ids cs) else 0)
  occ-suspects chosen [] = ground arith
  occ-suspects chosen (c ∷ cs) = ground (arith, occ-suspects chosen cs, is_chosen_lem chosen c)

  -- What a build places.
  abbrev pub built_ids : Built → ℕ
  built_ids b = occ j (ids b.inside) + occ j (bucket b.culprits) + occ j (bucket b.put_off)

  module _ (build : Additions → Option Str) where
    occ-built_again :
        (survivors : List Candidate) (culprits : List Candidate) (o : Option Str)
        → built_ids (built_again survivors (with_reason build_failed (refs culprits)) o)
          ≡ occ j (candidate_ids survivors) + occ j (candidate_ids culprits)
    occ-built_again survivors culprits none = omega (
      arith,
      bucket-with_reason build_failed (refs culprits),
      bucket-with_reason rebuild_failed (refs survivors),
    )
    occ-built_again survivors culprits (some hex) =
        omega (arith, bucket-with_reason build_failed (refs culprits))

    occ-conclude :
        (survivors culprits : List Candidate) (b : Built)
        → conclude_bisection build survivors culprits ≡ returned b
        → built_ids b ≡ occ j (candidate_ids survivors) + occ j (candidate_ids culprits)
    occ-conclude survivors [] b h = cc
    occ-conclude [] (c ∷ cs) b h =
        ap built_ids (sym (returned_inj h))
        ∙ omega (arith, bucket-with_reason build_failed (refs (c ∷ cs)))
    occ-conclude (s ∷ ss) (c ∷ cs) b h =
        ap built_ids (sym (returned_inj h))
        ∙ occ-built_again (s ∷ ss) (c ∷ cs) (build (rebuild (s ∷ ss) []))

    occ-bisect :
        (suspects : List Candidate) (b : Built)
        → bisect build suspects ≡ returned b
        → built_ids b ≡ occ j (candidate_ids suspects)
    occ-bisect suspects b h =
        occ-conclude (filter (builds build) suspects) (filter (λ c. not (builds build c)) suspects)
          b h
        ∙ sym (occ-candidates (builds build) suspects)

    pub occ-build_merged :
        (cs : List Candidate) (m : Merge) (b : Built)
        → occ j (candidate_ids cs) ≤ 1
        → occ j (candidate_ids m.chosen) ≤ occ j (candidate_ids cs)
        → build_merged build cs m ≡ returned b
        → built_ids b ≡ occ j (candidate_ids m.chosen)
    unfolding build_merged
    occ-build_merged cs m b one le h = go (build m.merged) (build []) h
      where
        go :
            (whole control : Option Str)
            → (elim whole [
              | some hex ↦
                  returned
                    (record { tx = some hex; inside = refs m.chosen; culprits = []; put_off = [] })
              | none ↦ elim control [
                | none ↦ thrown not_built
                | some _ ↦ bisect build (filter (is_chosen m.chosen) cs)
              ]
            ])
              ≡ returned b
            → built_ids b ≡ occ j (candidate_ids m.chosen)
        go (some hex) control h = ap built_ids (sym (returned_inj h)) ∙ omega arith
        go none none h = cc
        go none (some _) h =
            occ-bisect (filter (is_chosen m.chosen) cs) b h
            ∙ ground (arith, occ-suspects m.chosen cs)
