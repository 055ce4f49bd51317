-- ===== src/Inbox/Gate.antt =====
-- Which keys pass the gate of src/inbox/vdxf-gate.ts.
use mathlib.Core.Path.{subst}
use j41_sovagent_sdk.Prelude.{
  ℕ, ◌≡◌, refl, true, List, [], ◌∷◌, arith, All, Option, none, some, Str, str_discrete, str_member,
  Bool-cases, inl, inr,
}
use j41_sovagent_sdk.Prelude.Maps.{put}
use j41_sovagent_sdk.Prelude.Json.{Json, Fields, no_fields, field}
use j41_sovagent_sdk.Inbox.{
  ItemType, review, attestation, job_record, Additions, passed, InboxItem, keep_allowed, as_array,
  is_nullish, inbox_allowlist_for_type, build_inbox_vdxf_additions, synthesize, non_empty,
  gate_data, job_record_key,
}

-- Every key is one of a list.
abbrev pub IsWithin : List Str → Additions → Type 0
IsWithin allow entries = All (λ a. str_member a.0 allow ≡ true) entries

put-IsWithin :
    (allow : List Str) (k : Str) (v : List Json) (entries : Additions)
    → str_member k allow ≡ true
    → IsWithin allow entries
    → IsWithin allow (put str_discrete k v entries)
unfolding put
put-IsWithin allow k v [] h w = (h, tt)
put-IsWithin allow k v ((j, u) ∷ entries) h w = ground (arith, put-IsWithin allow k v entries h w.1)

keep_allowed-IsWithin :
    (allow : List Str) (fs : Fields) (kept : Additions)
    → IsWithin allow kept
    → IsWithin allow (keep_allowed allow fs kept)
unfolding keep_allowed
keep_allowed-IsWithin allow no_fields kept w = w
keep_allowed-IsWithin allow (field k v fs) kept w = elim (Bool-cases (is_nullish v)) [
  | inl e ↦ rw e (keep_allowed-IsWithin allow fs kept w)
  | inr e1 ↦ elim (Bool-cases (str_member k allow)) [
    | inr e ↦ rw (e1, e) (keep_allowed-IsWithin allow fs kept w)
    | inl e ↦
        rw (e1, e)
          (keep_allowed-IsWithin allow fs (put str_discrete k (as_array v) kept)
            (put-IsWithin allow k (as_array v) kept e w))
  ]
]

passed_inj : {a b : Additions} → passed a ≡ passed b → a ≡ b
passed_inj h = cc

non_empty-passed : (entries bs : Additions) → non_empty entries ≡ passed bs → entries ≡ bs
non_empty-passed [] bs h = cc
non_empty-passed (a ∷ entries) bs h = cc

module _ (stringify : Json → Str) where
  synthesize-IsWithin :
      (type : ItemType) (timestamp : ℕ) (i : InboxItem) (entries : Additions)
      → synthesize stringify type timestamp i ≡ passed entries
      → IsWithin (inbox_allowlist_for_type type) entries
  unfolding str_member str_discrete
  synthesize-IsWithin review timestamp i entries h = cc
  synthesize-IsWithin attestation timestamp i entries h = cc
  synthesize-IsWithin job_record timestamp i entries h =
      subst (IsWithin (job_record_key ∷ [])) (passed_inj h) (refl, tt)

  gate_data-IsWithin :
      (type : ItemType) (timestamp : ℕ) (i : InboxItem) (data' : Option Fields)
      (entries : Additions)
      → gate_data stringify type timestamp i data' ≡ passed entries
      → IsWithin (inbox_allowlist_for_type type) entries
  gate_data-IsWithin type timestamp i none entries h =
      synthesize-IsWithin type timestamp i entries h
  gate_data-IsWithin type timestamp i (some no_fields) entries h =
      synthesize-IsWithin type timestamp i entries h
  gate_data-IsWithin type timestamp i (some (field k v fs)) entries h =
      let allow = inbox_allowlist_for_type type in
      subst (IsWithin allow) (non_empty-passed _ entries h)
        (keep_allowed-IsWithin allow (field k v fs) [] tt)

  -- What an item of a type adds lies under the keys of that very type, whatever the platform sent.
  pub build_inbox_vdxf_additions-IsWithin :
      (type : ItemType) (timestamp : ℕ) (i : InboxItem) (entries : Additions)
      → build_inbox_vdxf_additions stringify type timestamp i ≡ passed entries
      → IsWithin (inbox_allowlist_for_type type) entries
  build_inbox_vdxf_additions-IsWithin type timestamp i entries h =
      gate_data-IsWithin type timestamp i i.vdxf_data entries h
