-- ===== src/Prelude/Lists.antt =====
-- Lists measured by native numbers, and predicates over lists.
use Prim.Native.Nat.{ℕ, zero, suc, ◌+◌, ◌-◌}
use mathlib.Core.Path.{◌≡◌}
use mathlib.Core.Bool.{Bool, true, false, ◌||◌}
use mathlib.Core.List.{List, [], ◌∷◌, ◌++◌}
use mathlib.Core.Logic.{◌⊎◌, ◌↔◌, inl, inr}
use native.Mathlib.Omega.{arith}
use agenttier.Prelude.Tests.{if◌then◌else◌, Bool-cases}

module _ {ℓ} {A : Type ℓ} where
  abbrev pub length : List A → ℕ
  length [] = 0
  length (x ∷ xs) = suc (length xs)

  abbrev pub drop : ℕ → List A → List A
  drop zero xs = xs
  drop (suc n) [] = []
  drop (suc n) (x ∷ xs) = drop n xs

  abbrev pub any : (A → Bool) → List A → Bool
  any p [] = false
  any p (x ∷ xs) = p x || any p xs

  abbrev pub is_empty : List A → Bool
  is_empty [] = true
  is_empty (x ∷ xs) = false

  pub length-append : (xs ys : List A) → length (xs ++ ys) ≡ length xs + length ys
  length-append [] ys = omega arith
  length-append (x ∷ xs) ys = omega (arith, length-append xs ys)

  pub length-drop : (n : ℕ) (xs : List A) → length (drop n xs) ≡ length xs - n
  length-drop zero xs = omega arith
  length-drop (suc n) [] = omega arith
  length-drop (suc n) (x ∷ xs) = omega (arith, length-drop n xs)

-- A predicate that holds of every entry.
abbrev pub All {ℓ κ} : {A : Type ℓ} → (A → Type κ) → List A → Type κ
All P [] = Unit
All P (x ∷ xs) = P x × All P xs

-- An entry of the list.
abbrev pub In : {A : Type 0} → A → List A → Type 0
In a [] = ⊥
In a (x ∷ xs) = (a ≡ x) ⊎ In a xs

-- The entries that pass a test.
abbrev pub keep {ℓ} : {A : Type ℓ} → (A → Bool) → List A → List A
keep test [] = []
keep test (x ∷ xs) = if test x then x ∷ keep test xs else keep test xs

clash : {A : Type 0} (x a : A) (test : A → Bool) → a ≡ x → test x ≡ false → test a ≡ true → ⊥
clash x a test e miss pass = cc

pub In-keep :
    {A : Type 0} (test : A → Bool) (a : A) (xs : List A)
    → In a (keep test xs) ↔ (In a xs × (test a ≡ true))
In-keep test a [] = (λ m. absurd m, λ h. h.0)
In-keep test a (x ∷ xs) =
    let (to, from) = In-keep test a xs in
    elim (Bool-cases (test x)) [
      | inl pass ↦ rw pass (
        λ m. elim m [ inl e ↦ (inl e, rw e pass) | inr m' ↦ (inr (to m').0, (to m').1) ],
        λ h. elim h.0 [ inl e ↦ inl e | inr m' ↦ inr (from (m', h.1)) ],
      )
      | inr miss ↦ rw miss (
        λ m. (inr (to m).0, (to m).1),
        λ h. elim h.0 [ inl e ↦ absurd (clash x a test e miss h.1) | inr m' ↦ from (m', h.1) ],
      )
    ]
