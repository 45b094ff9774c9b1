-- ===== src/Template/Keyed.antt =====
-- mergeEnvVars and mergeFiles of template_resolver.go, which are one function of the entry's key. The
-- map and the order of its keys are one list, in the order in which the keys came.
use agenttier.Prelude.{
  String, Option, none, some, List, [], ◌∷◌, ◌≡◌, refl, arith, str_eq, eq_iff, if◌then◌else◌,
  is_empty, name_cases, inl, inr, subst, ap, ◌∙◌,
}

-- What a child sets, and the parent's otherwise.
abbrev pub or_else : {A : Type 0} → Option A → Option A → Option A
or_else (some own) inherited = some own
or_else none inherited = inherited

module _ {A : Type 0} (key : A → String) where
  -- `if _, exists := m[k]; !exists { order = append(order, k) }; m[k] = a`
  abbrev pub put : A → List A → List A
  put a [] = a ∷ []
  put a (b ∷ entries) = if str_eq (key b) (key a) then a ∷ entries else b ∷ put a entries

  unfoldable pub put_all : List A → List A → List A
  put_all [] entries = entries
  put_all (a ∷ rest) entries = put_all rest (put a entries)

  unfoldable pub merge_keyed : List A → List A → List A
  unfolding put_all
  merge_keyed parent child =
      if is_empty child
      then parent
      else (if is_empty parent then child else put_all child (put_all parent []))

  -- The entry in force for a key: the last one that has it.
  abbrev pub last_with : String → List A → Option A
  last_with k [] = none
  last_with k (a ∷ entries) = elim (last_with k entries) [
    | some later ↦ some later
    | none ↦ if str_eq (key a) k then some a else none
  ]

  -- No two entries have the same key.
  abbrev pub Distinct : List A → Type 0
  Distinct [] = Unit
  Distinct (a ∷ entries) = (last_with (key a) entries ≡ none) × Distinct entries

  last_with-put :
      (k : String) (a : A) (entries : List A)
      → Distinct entries
      → last_with k (put a entries) ≡ (if str_eq (key a) k then some a else last_with k entries)
  last_with-put k a [] d = refl
  last_with-put k a (b ∷ entries) d =
      let own : key b ≡ k → last_with k entries ≡ none =
        λ e. subst (λ j. last_with j entries ≡ none) e d.0 in
      elim (name_cases (key b) (key a)) [
        | inl same ↦ ground (arith, eq_iff (key b) (key a), eq_iff (key a) k, eq_iff (key b) k, own)
        | inr other ↦ ground (
          arith,
          last_with-put k a entries,
          eq_iff (key a) k,
          eq_iff (key b) k,
          eq_iff (key b) (key a),
        )
      ]

  put-Distinct : (a : A) (entries : List A) → Distinct entries → Distinct (put a entries)
  put-Distinct a [] d = (refl, tt)
  put-Distinct a (b ∷ entries) d = elim (name_cases (key b) (key a)) [
    | inl same ↦
        rw ((eq_iff (key b) (key a)).1 same) (subst (λ j. last_with j entries ≡ none) same d.0, d.1)
    | inr other ↦ rw other (
      ground
          (arith, last_with-put (key b) a entries, eq_iff (key a) (key b), eq_iff (key b) (key a)),
      put-Distinct a entries d.1,
    )
  ]

  put_all-Distinct : (rest entries : List A) → Distinct entries → Distinct (put_all rest entries)
  unfolding put_all
  put_all-Distinct [] entries d = d
  put_all-Distinct (a ∷ rest) entries d =
      put_all-Distinct rest (put a entries) (put-Distinct a entries d)

  last_with-put_all :
      (k : String) (rest entries : List A)
      → Distinct entries
      → last_with k (put_all rest entries) ≡ or_else (last_with k rest) (last_with k entries)
  unfolding put_all
  last_with-put_all k [] entries d = refl
  last_with-put_all k (a ∷ rest) entries d = ground (
    arith,
    last_with-put k a entries,
    last_with-put_all k rest (put a entries) (put-Distinct a entries d),
  )

  -- What is in force for a key after the merge is the child's entry, and the parent's where the child
  -- has none.
  pub last_with-merge_keyed :
      (k : String) (parent child : List A)
      → last_with k (merge_keyed parent child) ≡ or_else (last_with k child) (last_with k parent)
  unfolding merge_keyed
  last_with-merge_keyed k parent [] = refl
  last_with-merge_keyed k [] (c ∷ child) = ground arith
  last_with-merge_keyed k (p ∷ parent) (c ∷ child) =
      last_with-put_all k (c ∷ child) (put_all (p ∷ parent) [])
        (put_all-Distinct (p ∷ parent) [] tt)
      ∙ ap (or_else (last_with k (c ∷ child)))
          (last_with-put_all k (p ∷ parent) [] tt ∙ or_else-none (last_with k (p ∷ parent)))
    where
      or_else-none : (found : Option A) → or_else found none ≡ found
      or_else-none none = refl
      or_else-none (some x) = refl

  -- Two lists with entries, or one without repeated keys, merge into a list without repeated keys.
  pub merge_keyed-Distinct :
      (parent child : List A)
      → Distinct parent
      → Distinct child
      → Distinct (merge_keyed parent child)
  unfolding merge_keyed
  merge_keyed-Distinct parent [] p c = p
  merge_keyed-Distinct [] (b ∷ child) p c = c
  merge_keyed-Distinct (a ∷ parent) (b ∷ child) p c =
      put_all-Distinct (b ∷ child) (put_all (a ∷ parent) []) (put_all-Distinct (a ∷ parent) [] tt)
