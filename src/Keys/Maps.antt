-- ===== src/Keys/Maps.antt =====
-- Go maps with string keys as their entries, each key once: `m[k] = v` and `delete(m, k)`.
use agenttier.Prelude.{
  String, false, Option, none, some, List, [], ◌∷◌, ◌++◌, map, ◌≡◌, refl, arith, str_eq, eq_iff,
  eq_refl, if◌then◌else◌, name_cases, inl, inr, In, sym,
}
use agenttier.Webhook.Subscription.{lookup}

module _ {V : Type 0} where
  abbrev pub keys : List (String × V) → List String
  keys = map (λ e. e.0)

  unfoldable pub set_at : String → V → List (String × V) → List (String × V)
  set_at key v [] = (key, v) ∷ []
  set_at key v ((k, u) ∷ m) =
      let rest = set_at key v m in if str_eq k key then (key, v) ∷ m else (k, u) ∷ rest

  unfoldable pub delete_at : String → List (String × V) → List (String × V)
  delete_at key [] = []
  delete_at key ((k, u) ∷ m) =
      let rest = delete_at key m in if str_eq k key then rest else (k, u) ∷ rest

  pub lookup-set_at_self :
      (key : String) (v : V) (m : List (String × V)) → lookup key (set_at key v m) ≡ some v
  unfolding lookup set_at
  lookup-set_at_self key v [] = ground (arith, eq_refl key)
  lookup-set_at_self key v ((k, u) ∷ m) = elim (name_cases k key) [
    | inl same ↦ ground (arith, eq_refl key, eq_iff k key)
    | inr other ↦ rw (other, other) (lookup-set_at_self key v m)
  ]

  pub lookup-set_at_ne :
      (key : String) (v : V) (q : String) (m : List (String × V))
      → str_eq key q ≡ false
      → lookup q (set_at key v m) ≡ lookup q m
  unfolding lookup set_at
  lookup-set_at_ne key v q [] ne = rw ne refl
  lookup-set_at_ne key v q ((k, u) ∷ m) ne = elim (name_cases k key) [
    | inl same ↦ ground (arith, eq_iff k key, eq_iff key q, eq_iff k q)
    | inr other ↦ ground (arith, lookup-set_at_ne key v q m ne)
  ]

  pub lookup-delete_at_self :
      (key : String) (m : List (String × V)) → lookup key (delete_at key m) ≡ none
  unfolding lookup delete_at
  lookup-delete_at_self key [] = refl
  lookup-delete_at_self key ((k, u) ∷ m) = ground (arith, lookup-delete_at_self key m)

  pub lookup-delete_at_ne :
      (key q : String) (m : List (String × V))
      → str_eq key q ≡ false
      → lookup q (delete_at key m) ≡ lookup q m
  unfolding lookup delete_at
  lookup-delete_at_ne key q [] ne = refl
  lookup-delete_at_ne key q ((k, u) ∷ m) ne =
      ground (arith, lookup-delete_at_ne key q m ne, eq_iff k key, eq_iff key q, eq_iff k q)

  -- A key that is there keeps its place, a new one comes last.
  pub keys-set_at_old :
      (key : String) (v u : V) (m : List (String × V))
      → lookup key m ≡ some u
      → keys (set_at key v m) ≡ keys m
  unfolding lookup set_at
  keys-set_at_old key v u [] h = cc
  keys-set_at_old key v u ((k, x) ∷ m) h = elim (name_cases k key) [
    | inl same ↦ ground (arith, eq_iff k key)
    | inr other ↦ ground (arith, keys-set_at_old key v u m)
  ]

  pub keys-set_at_new :
      (key : String) (v : V) (m : List (String × V))
      → lookup key m ≡ none
      → keys (set_at key v m) ≡ keys m ++ key ∷ []
  unfolding lookup set_at
  keys-set_at_new key v [] h = refl
  keys-set_at_new key v ((k, x) ∷ m) h = ground (arith, keys-set_at_new key v m)

  pub In-keys-of_lookup :
      (key : String) (v : V) (m : List (String × V)) → lookup key m ≡ some v → In key (keys m)
  unfolding lookup
  In-keys-of_lookup key v [] h = absurd (none-some h)
    where
      none-some : ◌≡◌ {A = Option V} none (some v) → ⊥
      none-some e = cc
  In-keys-of_lookup key v ((k, x) ∷ m) h = elim (name_cases k key) [
    | inl same ↦ inl (sym same)
    | inr other ↦ inr (In-keys-of_lookup key v m (ground arith))
  ]

  pub lookup-of_In-keys :
      (key : String) (m : List (String × V)) → lookup key m ≡ none → In key (keys m) → ⊥
  unfolding lookup
  lookup-of_In-keys key [] h i = i
  lookup-of_In-keys key ((k, x) ∷ m) h (inl e) = ground (arith, eq_iff k key)
  lookup-of_In-keys key ((k, x) ∷ m) h (inr i) = lookup-of_In-keys key m (ground arith) i

  pub delete_at_absent :
      (key : String) (m : List (String × V)) → (In key (keys m) → ⊥) → delete_at key m ≡ m
  unfolding delete_at
  delete_at_absent key [] out = refl
  delete_at_absent key ((k, u) ∷ m) out = elim (name_cases k key) [
    | inl same ↦ absurd (out (inl (sym same)))
    | inr other ↦ rw (other, delete_at_absent key m (λ i. out (inr i))) refl
  ]
