-- ===== src/WorkspaceClient/Paths.antt =====
-- The paths that src/workspace/client.ts lets through, as src/buyer/workspace.ts resolves them.
use mathlib.Core.List.{append_assoc, append-nil}
use j41_sovagent_sdk.Prelude.{
  ◌≡◌, ◌≢◌, ◌⊎◌, refl, sym, ap, ◌∙◌, Bool, true, false, ◌||◌, List, [], ◌∷◌, ◌++◌, some, Str, codes,
  arith, any, ◌==◌, ◌===◌, str_discrete, str_member, starts_with, Bool-cases, inl, inr,
}
use j41_sovagent_sdk.Workspace.{
  resolve_safe, split_at, cons_first, is_slash, is_any_slash, dotdot, walk, slashed, is_inside,
}
use j41_sovagent_sdk.WorkspaceClient.{assert_safe_path}

abbrev is_free : Str → Bool
is_free t = any (λ c. c == b'\\') t

-- Splitting at slashes gives the segments of a path; splitting at backslashes too divides them further,
-- and leaves alone a first one without a backslash, and what stands behind it.
record IsFiner (coarse fine : List Str) : Type 0 where
  first : Str
  rest : List Str
  coarse_is : coarse ≡ first ∷ rest
  first' : Str
  rest' : List Str
  fine_is : fine ≡ first' ∷ rest'
  head : is_free first ≡ false → first' ≡ first
  tail : str_member dotdot rest ≡ true → str_member dotdot rest' ≡ true

member-cons_cases :
    (s t : Str) (ts : List Str) → str_member s (t ∷ ts) ≡ true → (t ≡ s) ⊎ (str_member s ts ≡ true)
unfolding str_member
member-cons_cases s t ts h = elim (str_discrete s t) [
  | yes e ↦ inl (sym e)
  | no n ↦ inr (ground (arith, h, n))
]

member-cons_self : (s t : Str) (ts : List Str) → t ≡ s → str_member s (t ∷ ts) ≡ true
unfolding str_member
member-cons_self s t ts e = ground arith

member-cons_of_member :
    (s t : Str) (ts : List Str) → str_member s ts ≡ true → str_member s (t ∷ ts) ≡ true
unfolding str_member
member-cons_of_member s t ts h = ground (arith, h)

IsFiner-member :
    (coarse fine : List Str)
    → IsFiner coarse fine
    → str_member dotdot coarse ≡ true
    → str_member dotdot fine ≡ true
IsFiner-member coarse fine f h =
    elim (member-cons_cases dotdot f.first f.rest (rw f.coarse_is at h)) [
      | inl e ↦ rw f.fine_is (member-cons_self dotdot f.first' f.rest' (f.head (rw e refl) ∙ e))
      | inr m ↦ rw f.fine_is (member-cons_of_member dotdot f.first' f.rest' (f.tail m))
    ]

split-IsFiner : (s : Str) → IsFiner (split_at is_slash s) (split_at is_any_slash s)
unfolding split_at cons_first
split-IsFiner [] = record {
  first = [];
  rest = [];
  coarse_is = refl;
  first' = [];
  rest' = [];
  fine_is = refl;
  head = λ h. refl;
  tail = λ h. h;
}
split-IsFiner (c ∷ cs) =
    let f = split-IsFiner cs in
    elim (Bool-cases (c == b'/')) [
      | inl e ↦ rw e (record {
        first = [];
        rest = split_at is_slash cs;
        coarse_is = refl;
        first' = [];
        rest' = split_at is_any_slash cs;
        fine_is = refl;
        head = λ h. refl;
        tail = IsFiner-member (split_at is_slash cs) (split_at is_any_slash cs) f;
      })
      | inr e ↦ elim (Bool-cases (c == b'\\')) [
        | inl b ↦
            rw (e, b, f.coarse_is)
              (record {
                first = c ∷ f.first;
                rest = f.rest;
                coarse_is = refl;
                first' = [];
                rest' = split_at is_any_slash cs;
                fine_is = refl;
                head = λ h. cc (rw b at h);
                tail = λ h.
                    IsFiner-member (split_at is_slash cs) (split_at is_any_slash cs) f
                      (rw f.coarse_is (member-cons_of_member dotdot f.first f.rest h));
              })
        | inr b ↦
            rw (e, b, f.coarse_is, f.fine_is)
              (record {
                first = c ∷ f.first;
                rest = f.rest;
                coarse_is = refl;
                first' = c ∷ f.first';
                rest' = f.rest';
                fine_is = refl;
                head = λ h. ap (◌∷◌ c) (f.head (rw b at h));
                tail = f.tail;
              })
      ]
    ]

not-member-tail :
    (s t : Str) (ts : List Str) → str_member s (t ∷ ts) ≡ false → str_member s ts ≡ false
unfolding str_member
not-member-tail s t ts h = ground (arith, h)

not-member-head : (s t : Str) (ts : List Str) → str_member s (t ∷ ts) ≡ false → t ≢ s
not-member-head s t ts h e = cc (member-cons_self s t ts e, h)

eq_of_test : (s t : Str) → (s === t) ≡ true → s ≡ t
eq_of_test s t h = elim (str_discrete s t) [ yes e ↦ e | no n ↦ ground (arith, h, n) ]

test_of_eq : (s t : Str) → s ≡ t → (s === t) ≡ true
test_of_eq s t e = ground arith

-- Segments without `..` lead down.
walk_down :
    (at segments : List Str)
    → str_member dotdot segments ≡ false
    → (below : List Str) × (walk at segments ≡ at ++ below)
unfolding walk
walk_down at [] h = ([], sym (append-nil at))
walk_down at (s ∷ ss) h =
    let h' = not-member-tail dotdot s ss h in
    elim (Bool-cases (s === [])) [
      | inl e ↦ let (b, p) = walk_down at ss h' in (b, rw e p)
      | inr e ↦ elim (Bool-cases (s === codes ".")) [
        | inl f ↦ let (b, p) = walk_down at ss h' in (b, rw (e, f) p)
        | inr f ↦ elim (Bool-cases (s === dotdot)) [
          | inl g ↦ absurd (not-member-head dotdot s ss h (eq_of_test s dotdot g))
          | inr g ↦
              let (b, p) = walk_down (at ++ s ∷ []) ss h' in
              (s ∷ b, rw (e, f, g) (p ∙ append_assoc at (s ∷ []) b))
        ]
      ]
    ]

slashed-append : (xs ys : List Str) → slashed (xs ++ ys) ≡ slashed xs ++ slashed ys
slashed-append [] ys = refl
slashed-append (x ∷ xs) ys =
    ap (λ t. b'/' ∷ (x ++ t)) (slashed-append xs ys)
    ∙ ap (◌∷◌ b'/') (sym (append_assoc x (slashed xs) (slashed ys)))

starts_with-append : (p t : Str) → starts_with (p ++ t) p ≡ true
unfolding starts_with
starts_with-append [] t = refl
starts_with-append (c ∷ p) t = ground (arith, starts_with-append p t)

or_true : (b : Bool) → (b || true) ≡ true
or_true true = refl
or_true false = refl

is_inside-append : (d : Str) (ds below : List Str) → is_inside (d ∷ ds) ((d ∷ ds) ++ below) ≡ true
is_inside-append d ds [] =
    let same =
      test_of_eq (slashed (d ∷ (ds ++ []))) (slashed (d ∷ ds))
        (ap (λ l. slashed (d ∷ l)) (append-nil ds)) in
    rw same (or_true _)
is_inside-append d ds (s ∷ ss) =
    let root = slashed (d ∷ ds) in
    let split : slashed ((d ∷ ds) ++ s ∷ ss) ≡ (root ++ codes "/") ++ (s ++ slashed ss) =
      slashed-append (d ∷ ds) (s ∷ ss) ∙ sym (append_assoc root (codes "/") (s ++ slashed ss)) in
    let starts : starts_with (slashed ((d ∷ ds) ++ s ∷ ss)) (root ++ codes "/") ≡ true =
      ap (λ t. starts_with t (root ++ codes "/")) split
      ∙ starts_with-append (root ++ codes "/") (s ++ slashed ss) in
    rw starts refl

-- A path that the seller's client accepts, the buyer's workspace resolves, below its project directory,
-- unless that is the root of the file system.
pub resolve_safe-assert_safe_path :
    (d : Str) (ds : List Str) (rel : Str)
    → assert_safe_path rel ≡ true
    → (below : List Str) × (resolve_safe (d ∷ ds) rel ≡ some ((d ∷ ds) ++ below))
unfolding assert_safe_path resolve_safe
resolve_safe-assert_safe_path d ds [] h = cc
resolve_safe-assert_safe_path d ds (c ∷ cs) h = elim (Bool-cases (is_slash c)) [
  | inl e ↦ cc (rw e at h)
  | inr e ↦ elim (Bool-cases (str_member dotdot (split_at is_any_slash (c ∷ cs)))) [
    | inl f ↦ cc (rw (e, f) at h)
    | inr f ↦
        let (below, w) = walk_down (d ∷ ds) (split_at is_slash (c ∷ cs)) (plain f) in
        (below, rw (f, e, w, is_inside-append d ds below) refl)
  ]
]
  where
    -- No `..` at the finer cut, none at the coarser one.
    plain :
        str_member dotdot (split_at is_any_slash (c ∷ cs)) ≡ false
        → str_member dotdot (split_at is_slash (c ∷ cs)) ≡ false
    plain f = elim (Bool-cases (str_member dotdot (split_at is_slash (c ∷ cs)))) [
      | inr g ↦ g
      | inl g ↦ cc (
        f,
        IsFiner-member (split_at is_slash (c ∷ cs)) (split_at is_any_slash (c ∷ cs))
            (split-IsFiner (c ∷ cs)) g,
      )
    ]
