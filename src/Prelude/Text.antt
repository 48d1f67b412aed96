-- ===== src/Prelude/Text.antt =====
-- Texts: equality, the order of JavaScript's `<` on texts below U+10000, and maps keyed by texts
-- (`Map<string, V>`: insertion order, a new value for an old key stays at its place).
use Prim.Native.Char.{code}
use Prim.Native.String.{String}
use mathlib.Core.Path.{◌≡◌}
use mathlib.Core.Bool.{Bool, true, false, ◌||◌, ◌&&◌}
use mathlib.Core.Option.{Option, none, some}
use mathlib.Core.List.{List, [], ◌∷◌}
use text.Mathlib.Text.{◌==◌}
use text.Mathlib.TextEquality.{eq_iff}
use text.Mathlib.TextPositions.{eq_refl}
use clycites_platform.Prelude.Tests.{ltb, if◌then◌else◌}
use clycites_platform.Prelude.Tests.{◌==◌ as nat_eq}

abbrev pub text_eq : String → String → Bool
text_eq a b = a == b

pub text_eq_iff : (a b : String) → (text_eq a b ≡ true → a ≡ b) × (a ≡ b → text_eq a b ≡ true)
text_eq_iff a b = (λ h. (eq_iff a b).0 h, λ h. (eq_iff a b).1 h)

pub text_eq_refl : (a : String) → text_eq a a ≡ true
text_eq_refl a = eq_refl a

unfoldable pub text_lt : String → String → Bool
text_lt String.[] String.[] = false
text_lt String.[] (String.◌∷◌ d t) = true
text_lt (String.◌∷◌ c s) String.[] = false
text_lt (String.◌∷◌ c s) (String.◌∷◌ d t) =
    ltb (code c) (code d) || (nat_eq (code c) (code d) && text_lt s t)

abbrev pub contains : String → List String → Bool
contains k [] = false
contains k (j ∷ js) = text_eq j k || contains k js

abbrev pub TextMap : Type 0 → Type 0
TextMap V = List (String × V)

module _ {V : Type 0} where
  abbrev pub lookup : String → TextMap V → Option V
  lookup k [] = none
  lookup k ((j, v) ∷ m) = if text_eq j k then some v else lookup k m

  abbrev pub insert : String → V → TextMap V → TextMap V
  insert k v [] = (k, v) ∷ []
  insert k v ((j, w) ∷ m) = if text_eq j k then (j, v) ∷ m else (j, w) ∷ insert k v m
