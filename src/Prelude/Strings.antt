-- ===== src/Prelude/Strings.antt =====
-- Message texts as code points, and the substring test of `strings.Contains`.
use Prim.Native.Nat.{ℕ}
use Prim.Native.Char.{code}
use Prim.Native.String.{String}
use mathlib.Core.Path.{◌≡◌, refl}
use mathlib.Core.Bool.{Bool, true, false, ◌||◌, ◌&&◌}
use mathlib.Core.List.{List, [], ◌∷◌, ◌++◌}
use native.Mathlib.Omega.{arith}
use text.Mathlib.Text.{◌==◌ as str_eq}
use text.Mathlib.TextEquality.{eq_iff}
use mathlib.Core.Logic.{◌⊎◌, inl, inr}
use agenttier.Prelude.Tests.{◌==◌, Bool-cases}

abbrev pub Text : Type 0
Text = List ℕ

-- The code points of a literal.
abbrev pub codes : String → Text
codes String.[] = []
codes (String.◌∷◌ c s) = code c ∷ codes s

-- `strings.HasPrefix(text, prefix)`
unfoldable pub has_prefix : Text → Text → Bool
has_prefix text [] = true
has_prefix [] (p ∷ prefix) = false
has_prefix (c ∷ text) (p ∷ prefix) = c == p && has_prefix text prefix

-- `strings.Contains(text, sub)`
unfoldable pub contains : Text → Text → Bool
unfolding has_prefix
contains [] sub = has_prefix [] sub
contains (c ∷ text) sub = has_prefix (c ∷ text) sub || contains text sub

pub has_prefix-append : (sub rest : Text) → has_prefix (sub ++ rest) sub ≡ true
unfolding has_prefix
has_prefix-append [] rest = refl
has_prefix-append (p ∷ sub) rest = ground (arith, has_prefix-append sub rest)

pub contains-self_append : (sub after : Text) → contains (sub ++ after) sub ≡ true
unfolding contains has_prefix
contains-self_append [] [] = refl
contains-self_append [] (c ∷ after) = refl
contains-self_append (p ∷ sub) after = ground (arith, has_prefix-append sub after)

-- What a text contains, it still contains behind another.
pub contains-append_right :
    (before text sub : Text) → contains text sub ≡ true → contains (before ++ text) sub ≡ true
unfolding contains
contains-append_right [] text sub h = h
contains-append_right (c ∷ before) text sub h =
    ground (arith, contains-append_right before text sub h)

-- Two names are the same, or the test says that they differ.
pub name_cases : (s t : String) → (s ≡ t) ⊎ ((str_eq s t) ≡ false)
name_cases s t = elim (Bool-cases (str_eq s t)) [
  | inl same ↦ inl ((eq_iff s t).0 same)
  | inr differ ↦ inr differ
]
