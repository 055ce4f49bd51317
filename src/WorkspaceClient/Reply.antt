-- ===== src/WorkspaceClient/Reply.antt =====
-- Which replies `validateMcpResult` in src/workspace/client.ts lets through.
use j41_sovagent_sdk.Prelude.{
  ℕ, ◌+◌, ◌≤◌, ◌≡◌, ◌↔◌, refl, sym, ap, true, false, List, [], ◌∷◌, Option, none, some, Str, codes,
  arith, All, length, ltb, Bool-cases, inl, inr, ltb→lt,
}
use j41_sovagent_sdk.Prelude.Json.{
  boolean, text, array, object, Items, no_items, item, Fields, lookup,
}
use j41_sovagent_sdk.WorkspaceClient.{
  Limits, McpResultContent, succeeded, content_of, prepend, check_one, check_items, count_items,
  with_content, validate_mcp_result, max_result_size,
}

-- All the items of a reply, where each is well formed.
abbrev both :
    Option McpResultContent → Option (List McpResultContent) → Option (List McpResultContent)
both none rest = none
both (some c) rest = prepend c rest

abbrev pub contents : Items → Option (List McpResultContent)
contents no_items = some []
contents (item v vs) = both (content_of v) (contents vs)

abbrev pub total : List McpResultContent → ℕ
total [] = 0
total (c ∷ cs) = length c.text + total cs

abbrev pub AreSmall : List McpResultContent → Type 0
AreSmall cs = All (λ c. length c.text ≤ max_result_size) cs

some_inj {ℓ} : {A : Type ℓ} {x y : A} → some x ≡ some y → x ≡ y
some_inj e = cc

prepend_inv :
    (c : McpResultContent) (o : Option (List McpResultContent)) (cs : List McpResultContent)
    → prepend c o ≡ some cs
    → (ds : List McpResultContent) × (o ≡ some ds) × (cs ≡ c ∷ ds)
prepend_inv c none cs h = cc
prepend_inv c (some ds) cs h = (ds, refl, sym (some_inj h))

le_of_ltb : (a b : ℕ) → ltb a b ≡ false → b ≤ a
le_of_ltb a b h = ground arith

ltb_of_le : (a b : ℕ) → b ≤ a → ltb a b ≡ false
ltb_of_le a b h = ground arith

-- What the rest of the loop does, for one round of it: `rest` are the contents of the other items.
accepts_one :
    (max a : ℕ) (o : Option McpResultContent) (next : ℕ → Option (List McpResultContent))
    (rest : Option (List McpResultContent)) (cs : List McpResultContent)
    → ((b : ℕ) (ds : List McpResultContent)
        → next b ≡ some ds
        → b ≤ max
        → (rest ≡ some ds) × AreSmall ds × (b + total ds ≤ max))
    → check_one max a o next ≡ some cs
    → (both o rest ≡ some cs) × AreSmall cs × (a + total cs ≤ max)
accepts_one max a none next rest cs ih h = cc
accepts_one max a (some c) next rest cs ih h =
    elim (Bool-cases (ltb max_result_size (length c.text))) [
      | inl e ↦ cc (rw e at h)
      | inr e ↦ elim (Bool-cases (ltb max (a + length c.text))) [
        | inl f ↦ cc (rw (e, f) at h)
        | inr f ↦
            let (ds, n, same) = prepend_inv c (next (a + length c.text)) cs (rw (e, f) at h) in
            let (r, small, t) = ih (a + length c.text) ds n (le_of_ltb max (a + length c.text) f) in
            rw (same, r)
              (refl, (le_of_ltb max_result_size (length c.text) e, small), omega (arith, t))
      ]
    ]

complete_one :
    (max a : ℕ) (o : Option McpResultContent) (next : ℕ → Option (List McpResultContent))
    (rest : Option (List McpResultContent)) (cs : List McpResultContent)
    → ((b : ℕ) (ds : List McpResultContent)
        → rest ≡ some ds
        → AreSmall ds
        → b + total ds ≤ max
        → next b ≡ some ds)
    → both o rest ≡ some cs
    → AreSmall cs
    → a + total cs ≤ max
    → check_one max a o next ≡ some cs
complete_one max a none next rest cs ih h s t = cc
complete_one max a (some c) next rest cs ih h s t =
    let (ds, n, same) = prepend_inv c rest cs h in
    let small : AreSmall (c ∷ ds) = rw same at s in
    let within : a + total (c ∷ ds) ≤ max = rw same at t in
    rw
      (
        same,
        ltb_of_le max_result_size (length c.text) small.0,
        ltb_of_le max (a + length c.text) (omega (arith, within)),
        ih (a + length c.text) ds n small.1 (omega (arith, within)),
      )
      refl

with_content_inv :
    (id : Str) (o : Option (List McpResultContent)) (cs : List McpResultContent)
    → with_content id o ≡ some (succeeded id cs)
    → o ≡ some cs
with_content_inv id none cs h = cc
with_content_inv id (some ds) cs h = cc

-- The loop accepts exactly the well-formed items that are small, alone and together.
check_items_accepts :
    (max a : ℕ) (vs : Items) (cs : List McpResultContent)
    → check_items max a vs ≡ some cs
    → a ≤ max
    → (contents vs ≡ some cs) × AreSmall cs × (a + total cs ≤ max)
unfolding check_items
check_items_accepts max a no_items cs h l = rw (sym (some_inj h)) (refl, tt, omega arith)
check_items_accepts max a (item v vs) cs h l =
    accepts_one max a (content_of v) (λ b. check_items max b vs) (contents vs) cs
      (λ b ds. check_items_accepts max b vs ds) h

check_items_complete :
    (max a : ℕ) (vs : Items) (cs : List McpResultContent)
    → contents vs ≡ some cs
    → AreSmall cs
    → a + total cs ≤ max
    → check_items max a vs ≡ some cs
unfolding check_items
check_items_complete max a no_items cs h s t = h
check_items_complete max a (item v vs) cs h s t =
    complete_one max a (content_of v) (λ b. check_items max b vs) (contents vs) cs
      (λ b ds. check_items_complete max b vs ds) h s t

-- A reply of success with a list of contents is let through, with these contents, exactly when there
-- are not too many of them and each is well formed and small, alone and together.
pub validate_mcp_result_lem :
    (l : Limits) (fs r : Fields) (id : Str) (vs : Items) (cs : List McpResultContent)
    → lookup (codes "id") fs ≡ some (text id)
    → lookup (codes "success") fs ≡ some (boolean true)
    → lookup (codes "result") fs ≡ some (object r)
    → lookup (codes "content") r ≡ some (array vs)
    → (validate_mcp_result l (object fs) ≡ some (succeeded id cs)) ↔ (
        (count_items vs ≤ l.max_result_items)
        × (contents vs ≡ some cs)
        × AreSmall cs
        × (total cs ≤ l.max_result_aggregate))
unfolding validate_mcp_result
validate_mcp_result_lem l fs r id vs cs i s re c =
    rw (i, s, re, c)
      (elim (Bool-cases (ltb l.max_result_items (count_items vs))) [
        | inl e ↦ rw e (
          (λ h. cc),
          (λ h. absurd (omega (arith, ltb→lt l.max_result_items (count_items vs) e, h.0))),
        )
        | inr e ↦ rw e (
          (λ h.
              let (k, small, t) =
                check_items_accepts l.max_result_aggregate 0 vs cs (with_content_inv id _ cs h)
                  (omega arith) in
              (le_of_ltb l.max_result_items (count_items vs) e, k, small, omega (arith, t))),
          (λ h.
              ap (with_content id)
                (check_items_complete l.max_result_aggregate 0 vs cs h.1 h.2 (omega (arith, h.3)))),
        )
      ])
