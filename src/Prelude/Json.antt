-- ===== src/Prelude/Json.antt =====
-- JavaScript values as far as validators look into them.
use Prim.Native.Nat.{ℕ, zero, suc}
use mathlib.Core.Logic.{ite}
use mathlib.Core.Bool.{Bool, true, false, ◌&&◌, ◌||◌}
use mathlib.Core.Option.{Option, none, some}
use mathlib.Core.List.{List, [], ◌∷◌}
use j41_sovagent_sdk.Prelude.Tests.{leb, if◌then◌else◌}
use j41_sovagent_sdk.Prelude.Text.{Str, str_discrete}

-- `number` is a natural number, `other_number` any other by its text.
mutual
  pub data Json : Type 0 where
    undefined null : Json
    boolean : Bool → Json
    number : ℕ → Json
    other_number : Str → Json
    text : Str → Json
    array : Items → Json
    object : Fields → Json

  pub data Items : Type 0 where
    no_items : Items
    item : Json → Items → Items

  pub data Fields : Type 0 where
    no_fields : Fields
    field : Str → Json → Fields → Fields

-- `obj[key]` of an own property.
unfoldable pub lookup : Str → Fields → Option Json
lookup k no_fields = none
lookup k (field j v fs) = ite (str_discrete j k) (some v) (lookup k fs)

-- `key in obj`
abbrev pub is_some {ℓ} : {A : Type ℓ} → Option A → Bool
is_some none = false
is_some (some a) = true

-- Every key of an object passes a test.
abbrev pub all_keys : (Str → Bool) → Fields → Bool
all_keys p no_fields = true
all_keys p (field k v fs) = if p k then all_keys p fs else false

abbrev pub is_text : (Str → Bool) → Option Json → Bool
is_text p (some (text s)) = p s
is_text p _ = false

-- A regular expression that is anchored on both sides and lists one character class per position.
abbrev pub matches : List (ℕ → Bool) → Str → Bool
matches [] [] = true
matches (c ∷ cs) (a ∷ s) = if c a then matches cs s else false
matches _ _ = false

abbrev pub repeat : ℕ → (ℕ → Bool) → List (ℕ → Bool) → List (ℕ → Bool)
repeat zero c cs = cs
repeat (suc n) c cs = c ∷ repeat n c cs

abbrev pub between : ℕ → ℕ → ℕ → Bool
between a b x = leb a x && leb x b

abbrev pub is_digit : ℕ → Bool
is_digit = between 48 57

-- `[1-9A-HJ-NP-Za-km-z]`
abbrev pub is_base58 : ℕ → Bool
is_base58 x =
    between 49 57 x
    || between 65 72 x
    || between 74 78 x
    || between 80 90 x
    || between 97 107 x
    || between 109 122 x

-- `[0-9a-fA-F]`
abbrev pub is_hex_digit : ℕ → Bool
is_hex_digit x = is_digit x || between 97 102 x || between 65 70 x

-- `[0-9a-f]`
abbrev pub is_lower_hex : ℕ → Bool
is_lower_hex x = is_digit x || between 97 102 x
