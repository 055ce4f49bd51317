-- ===== src/Inbox/Commit.antt =====
-- `acceptInboxBatch` of src/agent.ts from the merge on: the merge, the build with its bisection, the
-- broadcast and the acknowledgements.
use j41_sovagent_sdk.Prelude.{
  ℕ, ◌+◌, Bool, true, false, not, List, [], ◌∷◌, ◌++◌, map, Option, none, some, ltb, filter, any,
  if◌then◌else◌, Str, ◌===◌, str_discrete,
}
use j41_sovagent_sdk.Prelude.Maps.{get, put}
use j41_sovagent_sdk.Prelude.Json.{Fields, is_some}
use j41_sovagent_sdk.Inbox.{Additions}
use j41_sovagent_sdk.Inbox.Batch.{
  Encoding, Ref, Candidate, DeferReason, key_collision, size_budget, rebuild_failed, RejectReason,
  build_failed, Batch, empty_batch, Detail, gather, already_present, additions_byte_size,
}

abbrev pub put_all : Additions → Additions → Additions
put_all [] merged = merged
put_all ((k, vs) ∷ rest) merged = put_all rest (put str_discrete k vs merged)

-- `keys.some(k => k in merged)`
abbrev pub collides : Additions → Additions → Bool
collides entries merged = any (λ a. is_some (get str_discrete a.0 merged)) entries

-- The outcome of phase 3.
pub record Merge : Type 0 where
  pub merged : Additions
  pub chosen : List Candidate
  pub present : List Ref
  pub postponed : List (Ref × DeferReason)

pub data BatchError : Type 0 where
  no_wallet identity_failed no_prev_output utxos_failed no_utxos chain_info_failed not_built
        broadcast_failed :
      BatchError

-- The outcome of phase 4 before the broadcast: the transaction, the items in it, and those that it
-- moved to a bucket.
pub record Built : Type 0 where
  pub tx : Option Str
  pub inside : List Ref
  pub culprits : List (Ref × RejectReason)
  pub put_off : List (Ref × DeferReason)

pub data Attempt (A : Type 0) : Type 0 where
  thrown : BatchError → Attempt A
  returned : A → Attempt A

abbrev pub refs : List Candidate → List Ref
refs = map (λ c. c.ref)

abbrev pub with_reason {ℓ} : {A : Type ℓ} → A → List Ref → List (Ref × A)
with_reason r = map (λ ref. (ref, r))

-- The backend's answers: the identity is `none` where a request throws, its previous output is there
-- or not, and its content is what the chain holds.
pub record Backend : Type 0 where
  pub identity : Option (Bool × Fields)
  pub utxos : Option (List Str)
  pub expiry_height : Option (Option ℕ)
  pub broadcast : Option Str

pub data AckAnswer : Type 0 where
  accepted already_processed ack_error : AckAnswer

module _ (encoding : Encoding) where
  -- Phase 3.
  unfoldable pub merge_items : Fields → (max : ℕ) → Additions → (bytes : ℕ) → List Candidate → Merge
  merge_items on_chain max merged bytes [] = record {
    merged = merged;
    chosen = [];
    present = [];
    postponed = [];
  }
  merge_items on_chain max merged bytes (c ∷ cs) =
      let size = additions_byte_size encoding c.additions in
      let rest = merge_items on_chain max merged bytes cs in
      let taken = merge_items on_chain max (put_all c.additions merged) (bytes + size) cs in
      if already_present encoding on_chain c.additions
      then record rest { present = c.ref ∷ rest.present }
      else if collides c.additions merged
      then record rest { postponed = (c.ref, key_collision) ∷ rest.postponed }
      else if ltb max (bytes + size)
      then record rest { postponed = (c.ref, size_budget) ∷ rest.postponed }
      else record taken { chosen = c ∷ taken.chosen }

-- `mergedRefs.some(r => r.id === c.ref.id)`
abbrev pub is_chosen : List Candidate → Candidate → Bool
is_chosen chosen c = any (λ d. d.ref.id === c.ref.id) chosen

abbrev pub rebuild : List Candidate → Additions → Additions
rebuild [] rebuilt = rebuilt
rebuild (c ∷ cs) rebuilt = rebuild cs (put_all c.additions rebuilt)

abbrev pub built_again : List Candidate → List (Ref × RejectReason) → Option Str → Built
built_again survivors culprits (some hex) = record {
  tx = some hex;
  inside = refs survivors;
  culprits = culprits;
  put_off = [];
}
built_again survivors culprits none = record {
  tx = none;
  inside = [];
  culprits = culprits;
  put_off = with_reason rebuild_failed (refs survivors);
}

abbrev pub add_built : Merge → Built → (expiry : Option ℕ) → (txid : Option Str) → Batch → Batch
add_built m b expiry txid batch = record batch {
  txid = txid;
  expiry_height = elim txid [ none ↦ none | some _ ↦ expiry ];
  written = m.present ++ b.inside;
  rejected = batch.rejected ++ b.culprits;
  deferred = (batch.deferred ++ m.postponed) ++ b.put_off;
}

-- The broadcast: only with a transaction and something in it.
abbrev pub broadcast_built :
    Merge → Batch → (expiry : Option ℕ) → Option Str → Built → Attempt Batch
broadcast_built m batch expiry answer b = elim b.tx [
  | none ↦ returned (add_built m b expiry none batch)
  | some hex ↦ elim answer [
    | none ↦ thrown broadcast_failed
    | some txid ↦ returned (add_built m b expiry (some txid) batch)
  ]
]

abbrev pub and_broadcast :
    Merge → Batch → (expiry : Option ℕ) → Option Str → Attempt Built → Attempt Batch
and_broadcast m batch expiry answer (thrown e) = thrown e
and_broadcast m batch expiry answer (returned b) = broadcast_built m batch expiry answer b

abbrev pub nothing_built : Built
nothing_built = record { tx = none; inside = []; culprits = []; put_off = [] }

-- Phase 5.
abbrev pub acknowledges : AckAnswer → Bool
acknowledges accepted = true
acknowledges already_processed = true
acknowledges ack_error = false

abbrev pub ids : List Ref → List Str
ids = map (λ r. r.id)

abbrev pub acknowledge : (Str → AckAnswer) → Batch → Batch
acknowledge ack batch = record batch {
  acked = filter (λ id. acknowledges (ack id)) (ids batch.written);
  ack_failed = filter (λ id. not (acknowledges (ack id))) (ids batch.written);
}

abbrev pub and_acknowledge : (Str → AckAnswer) → Attempt Batch → Attempt Batch
and_acknowledge ack (thrown e) = thrown e
and_acknowledge ack (returned batch) = returned (acknowledge ack batch)

module _ (build : Additions → Option Str) where
  abbrev pub builds : Candidate → Bool
  builds c = is_some (build c.additions)

  -- The survivors and the culprits of the bisection; no culprit at all is the batch's own failure.
  abbrev pub conclude_bisection : (survivors culprits : List Candidate) → Attempt Built
  conclude_bisection survivors [] = thrown not_built
  conclude_bisection [] (c ∷ cs) = returned (record {
    tx = none;
    inside = [];
    culprits = with_reason build_failed (refs (c ∷ cs));
    put_off = [];
  })
  conclude_bisection (s ∷ ss) (c ∷ cs) = returned (
      built_again (s ∷ ss) (with_reason build_failed (refs (c ∷ cs))) (build (rebuild (s ∷ ss) [])))

  abbrev pub bisect : List Candidate → Attempt Built
  bisect suspects =
      conclude_bisection (filter builds suspects) (filter (λ c. not (builds c)) suspects)

  -- The build, the control build without additions, and the bisection.
  unfoldable pub build_merged : List Candidate → Merge → Attempt Built
  build_merged candidates m = elim (build m.merged) [
    | some hex ↦
        returned (record { tx = some hex; inside = refs m.chosen; culprits = []; put_off = [] })
    | none ↦ elim (build []) [
      | none ↦ thrown not_built
      | some _ ↦ bisect (filter (is_chosen m.chosen) candidates)
    ]
  ]

  -- Phase 4. The fee and the height are asked for only if something is to be written.
  abbrev pub write :
      Backend → (utxos : List Str) → List Candidate → Merge → List Candidate → Batch → Attempt Batch
  write backend utxos candidates m [] batch = returned (add_built m nothing_built none none batch)
  write backend [] candidates m (c ∷ cs) batch = thrown no_utxos
  write backend (u ∷ us) candidates m (c ∷ cs) batch = elim backend.expiry_height [
    | none ↦ thrown chain_info_failed
    | some expiry ↦ and_broadcast m batch expiry backend.broadcast (build_merged candidates m)
  ]

module _ (encoding : Encoding) (build : Additions → Option Str) where
  -- Phases 2 to 5; without a candidate the batch is done after phase 1.
  abbrev pub commit :
      (max : ℕ) → Backend → (Str → AckAnswer) → List Candidate → Batch → Attempt Batch
  commit max backend ack [] batch = returned batch
  commit max backend ack (c ∷ cs) batch = elim backend.identity [
    | none ↦ thrown identity_failed
    | some (has_prev_output, on_chain) ↦ elim backend.utxos [
      | none ↦ thrown utxos_failed
      | some utxos ↦
          let m = merge_items encoding on_chain max [] 0 (c ∷ cs) in
          if not has_prev_output
          then thrown no_prev_output
          else and_acknowledge ack (write build backend utxos (c ∷ cs) m m.chosen batch)
    ]
  ]

  -- `acceptInboxBatch`
  unfoldable pub accept_inbox_batch :
      (has_wallet : Bool)
      → (max timestamp : ℕ) → Backend
      → (Str → AckAnswer)
      → List (Ref × Option Detail)
      → Attempt Batch
  unfolding merge_items build_merged
  accept_inbox_batch has_wallet max timestamp backend ack [] = returned empty_batch
  accept_inbox_batch has_wallet max timestamp backend ack (i ∷ is) =
      let g = gather encoding timestamp (i ∷ is) in
      if not has_wallet then thrown no_wallet else commit max backend ack g.candidates g.batch
