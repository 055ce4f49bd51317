-- ===== src/History/Order.antt =====
-- The order in which snapshots are given to src/identity/history.ts.
use j41_sovagent_sdk.Prelude.{
  ℕ, ◌≡◌, ◌≢◌, refl, ap, ◌∙◌, true, false, List, [], ◌∷◌, map, Option, none, some, Str, arith,
}
use mathlib.Core.List.{Perm, Permᴰ, Nodup, Nodup-cons, mem-cons_self}
use mathlib.Core.Logic.{∥∥₁_elim}
use mathlib.Core.List.Perm
use mathlib.Core.List.Permᴰ
use j41_sovagent_sdk.History.{
  IdentityHistorySnapshot, snapshot_height, not_after, insert, sort, decode_review_history, collect,
  keep_first,
}
use j41_sovagent_sdk.Prelude.Json.{Json}
use j41_sovagent_sdk.Inbox.{review_record_key}

IdentityHistorySnapshot_set : IsSet IdentityHistorySnapshot
IdentityHistorySnapshot_set = hlevel

pub not_after_total : (a b : Option ℕ) → not_after a b ≡ false → not_after b a ≡ true
not_after_total none none h = cc
not_after_total none (some b) h = refl
not_after_total (some a) none h = cc
not_after_total (some a) (some b) h = ground arith

pub not_after_antisymm : (a b : Option ℕ) → not_after a b ≡ true → not_after b a ≡ true → a ≡ b
not_after_antisymm none none h k = refl
not_after_antisymm none (some b) h k = cc
not_after_antisymm (some a) none h k = cc
not_after_antisymm (some a) (some b) h k = ap some (ground arith)

pub not_after_trans :
    (a b c : Option ℕ) → not_after a b ≡ true → not_after b c ≡ true → not_after a c ≡ true
not_after_trans a none none h k = h
not_after_trans a none (some c) h k = cc
not_after_trans none (some b) c h k = cc
not_after_trans (some a) (some b) none h k = refl
not_after_trans (some a) (some b) (some c) h k = ground arith

-- Snapshots of different heights are inserted in any order.
insert_comm :
    (a b : IdentityHistorySnapshot) (l : List IdentityHistorySnapshot)
    → snapshot_height a ≢ snapshot_height b
    → insert a (insert b l) ≡ insert b (insert a l)
unfolding insert
insert_comm a b [] h = ground (
  arith,
  not_after_total (snapshot_height a) (snapshot_height b),
  not_after_antisymm (snapshot_height a) (snapshot_height b),
)
insert_comm a b (t ∷ ts) h = ground (
  arith,
  insert_comm a b ts h,
  not_after_total (snapshot_height a) (snapshot_height b),
  not_after_antisymm (snapshot_height a) (snapshot_height b),
  not_after_trans (snapshot_height a) (snapshot_height b) (snapshot_height t),
  not_after_trans (snapshot_height b) (snapshot_height a) (snapshot_height t),
)

-- And so ordered the same way.
sort_permᴰ :
    {ss ts : List IdentityHistorySnapshot}
    → Permᴰ ss ts
    → Nodup (map snapshot_height ss)
    → sort ss ≡ sort ts
unfolding sort
sort_permᴰ Permᴰ.nil n = refl
sort_permᴰ (Permᴰ.cons e p) n = λ i. insert (e i) (sort_permᴰ p (Nodup-cons.0 n).1 i)
sort_permᴰ (Permᴰ.swap {a} {b} {l = l} e f) n =
    insert_comm a b (sort l) (λ same. (Nodup-cons.0 n).0 (rw same mem-cons_self)) ∙ λ i.
    insert (f i) (insert (e i) (sort l))
sort_permᴰ (Permᴰ.trans p q) n =
    sort_permᴰ p n ∙ sort_permᴰ q (Perm.nodup ∣ Permᴰ.map snapshot_height p ∣₁ n)

sort-perm :
    {ss ts : List IdentityHistorySnapshot}
    → Perm ss ts
    → Nodup (map snapshot_height ss)
    → sort ss ≡ sort ts
sort-perm {ss} {ts} p n = ∥∥₁_elim p (snapshots_set (sort ss) (sort ts)) (λ q. sort_permᴰ q n)
  where
    snapshots_set : IsSet (List IdentityHistorySnapshot)
    snapshots_set = hlevel (IdentityHistorySnapshot_set)

-- The reviews that are recovered do not depend on the order in which the snapshots are given, as long
-- as no two are of the same height.
pub decode_review_history-perm :
    (stringify : List Json → Str) (parse : Str → Option Json) (from_hex : Str → Str)
    (ss ts : List IdentityHistorySnapshot)
    → Perm ss ts
    → Nodup (map snapshot_height ss)
    → decode_review_history stringify parse from_hex ss
      ≡ decode_review_history stringify parse from_hex ts
unfolding decode_review_history
decode_review_history-perm stringify parse from_hex ss ts p n =
    ap (λ l. keep_first stringify parse from_hex [] (collect stringify review_record_key none l))
      (sort-perm p n)
