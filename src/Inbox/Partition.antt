-- ===== src/Inbox/Partition.antt =====
-- `acceptInboxBatch` of src/agent.ts puts every item in one bucket, and every written one is
-- acknowledged or not.
use mathlib.Core.Path.{subst}
use j41_sovagent_sdk.Prelude.{
  occ, occ-filter, ℕ, ◌+◌, ◌≤◌, ◌≡◌, refl, sym, ap, ◌∙◌, Bool, true, false, not, List, [], ◌∷◌,
  ◌++◌, arith, Option, none, some, Str, if◌then◌else◌,
}
use j41_sovagent_sdk.Prelude.Json.{Fields}
use j41_sovagent_sdk.Inbox.{Additions}
use j41_sovagent_sdk.Inbox.Batch.{
  Encoding, Ref, Candidate, Batch, Detail, Gathered, Verdict, defer, done, reject, keep, place,
  gate, gather,
}
use j41_sovagent_sdk.Inbox.Commit.{
  Merge, Built, Attempt, thrown, returned, Backend, AckAnswer, ids, merge_items, build_merged,
  add_built, broadcast_built, and_broadcast, nothing_built, write, and_acknowledge, acknowledges,
  commit, accept_inbox_batch, broadcast_failed, chain_info_failed, identity_failed, utxos_failed,
  no_prev_output,
}
use j41_sovagent_sdk.Inbox.Buckets.{
  returned_inj, bucket, item_ids, candidate_ids, bucket-append, ids-append, placed, built_ids,
  occ-gather, occ-merge, chosen-le, occ-build_merged,
}

module _ (j : Str) where
  occ-add_built :
      (m : Merge) (b : Built) (expiry : Option ℕ) (txid : Option Str) (batch : Batch)
      → batch.written ≡ []
      → placed j (add_built m b expiry txid batch)
        ≡ placed j batch + occ j (ids m.present) + occ j (bucket m.postponed) + built_ids j b
  occ-add_built m b expiry txid batch none_written =
      let empty : occ j (ids batch.written) ≡ 0 = ap (λ rs. occ j (ids rs)) none_written in
      omega (
        arith,
        empty,
        bucket-append j batch.rejected b.culprits,
        bucket-append j (batch.deferred ++ m.postponed) b.put_off,
        bucket-append j batch.deferred m.postponed,
        ids-append j m.present b.inside,
      )

  occ-broadcast_built :
      (m : Merge) (batch : Batch) (expiry : Option ℕ) (answer : Option Str) (b : Built)
      (out : Batch)
      → batch.written ≡ []
      → broadcast_built m batch expiry answer b ≡ returned out
      → placed j out
        ≡ placed j batch + occ j (ids m.present) + occ j (bucket m.postponed) + built_ids j b
  occ-broadcast_built m batch expiry answer b out w h = go b.tx answer h
    where
      go :
          (tx answer : Option Str)
          → (elim tx [
            | none ↦ returned (add_built m b expiry none batch)
            | some hex ↦ elim answer [
              | none ↦ thrown broadcast_failed
              | some txid ↦ returned (add_built m b expiry (some txid) batch)
            ]
          ])
            ≡ returned out
          → placed j out
            ≡ placed j batch + occ j (ids m.present) + occ j (bucket m.postponed) + built_ids j b
      go none answer h =
          ap (placed j) (sym (returned_inj h)) ∙ occ-add_built m b expiry none batch w
      go (some hex) none h = cc
      go (some hex) (some txid) h =
          ap (placed j) (sym (returned_inj h)) ∙ occ-add_built m b expiry (some txid) batch w

  module _ (build : Additions → Option Str) (cs : List Candidate) (m : Merge) (batch : Batch) where
    occ-and_broadcast :
        (expiry : Option ℕ) (answer : Option Str) (built : Attempt Built) (out : Batch)
        → ((b : Built) → built ≡ returned b → built_ids j b ≡ occ j (candidate_ids m.chosen))
        → batch.written ≡ []
        → and_broadcast m batch expiry answer built ≡ returned out
        → placed j out
          ≡ placed j batch
            + occ j (ids m.present)
            + occ j (bucket m.postponed)
            + occ j (candidate_ids m.chosen)
    occ-and_broadcast expiry answer (thrown e) out k w h = cc
    occ-and_broadcast expiry answer (returned b) out k w h =
        omega (arith, k b refl, occ-broadcast_built m batch expiry answer b out w h)

    occ-write :
        (backend : Backend) (utxos : List Str) (chosen : List Candidate) (out : Batch)
        → m.chosen ≡ chosen
        → occ j (candidate_ids cs) ≤ 1
        → occ j (candidate_ids m.chosen) ≤ occ j (candidate_ids cs)
        → batch.written ≡ []
        → write build backend utxos cs m chosen batch ≡ returned out
        → placed j out
          ≡ placed j batch
            + occ j (ids m.present)
            + occ j (bucket m.postponed)
            + occ j (candidate_ids m.chosen)
    occ-write backend utxos [] out e one le w h =
        ap (placed j) (sym (returned_inj h))
        ∙ omega (
          arith,
          occ-add_built m nothing_built none none batch w,
          ap (λ ds. occ j (candidate_ids ds)) e,
        )
    occ-write backend [] (d ∷ ds) out e one le w h = cc
    occ-write backend (u ∷ us) (d ∷ ds) out e one le w h = go backend.expiry_height h
      where
        go :
            (height : Option (Option ℕ))
            → (elim height [
              | none ↦ thrown chain_info_failed
              | some expiry ↦
                  and_broadcast m batch expiry backend.broadcast (build_merged build cs m)
            ])
              ≡ returned out
            → placed j out
              ≡ placed j batch
                + occ j (ids m.present)
                + occ j (bucket m.postponed)
                + occ j (candidate_ids m.chosen)
        go none h = cc
        go (some expiry) h =
            occ-and_broadcast expiry backend.broadcast (build_merged build cs m) out
              (λ b e. occ-build_merged j build cs m b one le e) w h

  -- Every written item is acknowledged or not.
  abbrev pub IsAcknowledged : Batch → Type 0
  IsAcknowledged b = occ j (ids b.written) ≡ occ j b.acked + occ j b.ack_failed

  occ-acknowledge :
      (ack : Str → AckAnswer) (a : Attempt Batch) (out : Batch) (n : ℕ)
      → ((b : Batch) → a ≡ returned b → placed j b ≡ n)
      → and_acknowledge ack a ≡ returned out
      → (placed j out ≡ n) × IsAcknowledged out
  occ-acknowledge ack (thrown e) out n k h = cc
  occ-acknowledge ack (returned b) out n k h =
      subst (λ o. (placed j o ≡ n) × IsAcknowledged o) (returned_inj h)
        (k b refl, occ-filter j (λ id. acknowledges (ack id)) (ids b.written))

  -- Nothing is written or acknowledged before the merge.
  record IsUnwritten (b : Batch) : Type 0 where
    unwritten : b.written ≡ []
    unacked : b.acked ≡ []
    unfailed : b.ack_failed ≡ []

  place-IsUnwritten :
      (encoding : Encoding) (ref : Ref) (v : Verdict) (g : Gathered)
      → IsUnwritten g.batch
      → IsUnwritten (place encoding ref v g).batch
  place-IsUnwritten encoding ref defer g u = record {
    unwritten = u.unwritten;
    unacked = u.unacked;
    unfailed = u.unfailed;
  }
  place-IsUnwritten encoding ref done g u = record {
    unwritten = u.unwritten;
    unacked = u.unacked;
    unfailed = u.unfailed;
  }
  place-IsUnwritten encoding ref (reject r) g u = record {
    unwritten = u.unwritten;
    unacked = u.unacked;
    unfailed = u.unfailed;
  }
  place-IsUnwritten encoding ref (keep entries) g u = u

  gather-IsUnwritten :
      (encoding : Encoding) (timestamp : ℕ) (items : List (Ref × Option Detail))
      → IsUnwritten (gather encoding timestamp items).batch
  unfolding gather
  gather-IsUnwritten encoding timestamp [] = record {
    unwritten = refl;
    unacked = refl;
    unfailed = refl;
  }
  gather-IsUnwritten encoding timestamp ((ref, answer) ∷ rest) =
      place-IsUnwritten encoding ref (gate encoding timestamp ref answer)
        (gather encoding timestamp rest) (gather-IsUnwritten encoding timestamp rest)

  module _ (encoding : Encoding) (build : Additions → Option Str) (max : ℕ) (backend : Backend)
      (ack : Str → AckAnswer) where
    occ-commit :
        (cs : List Candidate) (batch out : Batch)
        → occ j (candidate_ids cs) ≤ 1
        → IsUnwritten batch
        → commit encoding build max backend ack cs batch ≡ returned out
        → (placed j out ≡ occ j (candidate_ids cs) + placed j batch) × IsAcknowledged out
    occ-commit [] batch out one u h =
        subst (λ o. (placed j o ≡ 0 + placed j batch) × IsAcknowledged o) (returned_inj h)
          (omega arith, none_acknowledged)
      where
        none_acknowledged : IsAcknowledged batch
        none_acknowledged =
            ap (λ rs. occ j (ids rs)) u.unwritten
            ∙ sym (omega (arith, ap (occ j) u.unacked, ap (occ j) u.unfailed))
    occ-commit (c ∷ cs) batch out one u h = go backend.identity backend.utxos h
      where
        go :
            (identity : Option (Bool × Fields)) (utxos : Option (List Str))
            → (elim identity [
              | none ↦ thrown identity_failed
              | some (has_prev_output, on_chain) ↦ elim utxos [
                | none ↦ thrown utxos_failed
                | some utxos ↦
                    let m = merge_items encoding on_chain max [] 0 (c ∷ cs) in
                    if not has_prev_output
                    then thrown no_prev_output
                    else and_acknowledge ack (write build backend utxos (c ∷ cs) m m.chosen batch)
              ]
            ])
              ≡ returned out
            → (placed j out ≡ occ j (candidate_ids (c ∷ cs)) + placed j batch) × IsAcknowledged out
        go none utxos h = cc
        go (some (p, on_chain)) none h = cc
        go (some (false, on_chain)) (some utxos) h = cc
        go (some (true, on_chain)) (some utxos) h =
            let m = merge_items encoding on_chain max [] 0 (c ∷ cs) in
            occ-acknowledge ack (write build backend utxos (c ∷ cs) m m.chosen batch) out _
              (λ b e. omega (
                arith,
                occ-merge j encoding on_chain max [] 0 (c ∷ cs),
                occ-write build (c ∷ cs) m batch backend utxos m.chosen b refl one
                    (chosen-le j encoding on_chain max [] 0 (c ∷ cs)) u.unwritten e,
              ))
              h

    -- If a batch of items with distinct ids returns, then each id stands in exactly one of the four
    -- buckets of the result, done before, rejected, deferred or written, as often as among the items;
    -- and each written one is acknowledged or in the list of failed acknowledgements.
    pub accept_inbox_batch-partition :
        (has_wallet : Bool) (timestamp : ℕ) (items : List (Ref × Option Detail)) (out : Batch)
        → occ j (item_ids items) ≤ 1
        → accept_inbox_batch encoding build has_wallet max timestamp backend ack items
          ≡ returned out
        → (placed j out ≡ occ j (item_ids items)) × IsAcknowledged out
    unfolding accept_inbox_batch
    accept_inbox_batch-partition has_wallet timestamp [] out one h =
        subst (λ o. (placed j o ≡ 0) × IsAcknowledged o) (returned_inj h) (refl, refl)
    accept_inbox_batch-partition false timestamp (i ∷ items) out one h = cc
    accept_inbox_batch-partition true timestamp (i ∷ items) out one h =
        let g = gather encoding timestamp (i ∷ items) in
        let dealt = occ-gather j encoding timestamp (i ∷ items) in
        let (all, acked) =
          occ-commit g.candidates g.batch out (omega (arith, dealt, one))
            (gather-IsUnwritten encoding timestamp (i ∷ items)) h in
        (all ∙ sym dealt, acked)
