-- ===== src/Prelude/Text.antt =====
-- JavaScript strings: a text is the list of its UTF-16 code units.
use Prim.Native.Char.{code}
use Prim.Native.String.{String}
use Prim.Native.Nat.{ℕ}
use mathlib.Core.Path.{◌≡◌, refl}
use mathlib.Core.Bool.{Bool, true, false, ◌&&◌}
use mathlib.Core.List.{List, [], ◌∷◌}
use native.Mathlib.Omega.{arith}
use j41_sovagent_sdk.Prelude.Tests.{◌==◌, if◌then◌else◌}

abbrev pub Str : Type 0
Str = List ℕ

-- The code units of an ASCII literal.
abbrev pub codes : String → Str
codes String.[] = []
codes (String.◌∷◌ c s) = code c ∷ codes s

pub str_beq : Str → Str → Bool
str_beq [] [] = true
str_beq (a ∷ s) (b ∷ t) = a == b && str_beq s t
str_beq _ _ = false

pub str_beq_sound : (s t : Str) → str_beq s t ≡ true → s ≡ t
unfolding str_beq
str_beq_sound [] [] h = refl
str_beq_sound (a ∷ s) (b ∷ t) h = ground (arith, str_beq_sound s t)
str_beq_sound [] (b ∷ t) h = cc
str_beq_sound (a ∷ s) [] h = cc

pub str_beq_refl : (s : Str) → str_beq s s ≡ true
unfolding str_beq
str_beq_refl [] = refl
str_beq_refl (a ∷ s) = ground (arith, str_beq_refl s)

pub decide_str : (s t : Str) (b : Bool) → str_beq s t ≡ b → Dec (s ≡ t)
decide_str s t true e = yes (str_beq_sound s t e)
decide_str s t false e = no (λ p. cc (str_beq_refl t, e, p))

-- `s === t`
unfoldable pub str_discrete : Discrete Str
unfolding str_beq decide_str
str_discrete s t = decide_str s t (str_beq s t) refl

-- The same as a Boolean.
infix 50 ◌===◌
abbrev pub ◌===◌ : Str → Str → Bool
s === t = elim (str_discrete s t) [ yes _ ↦ true | no _ ↦ false ]

unfoldable pub str_member : Str → List Str → Bool
str_member s [] = false
str_member s (t ∷ ts) = if s === t then true else str_member s ts

-- `s.startsWith(p)`
unfoldable pub starts_with : Str → Str → Bool
starts_with s [] = true
starts_with [] (c ∷ p) = false
starts_with (a ∷ s) (c ∷ p) = if a == c then starts_with s p else false
