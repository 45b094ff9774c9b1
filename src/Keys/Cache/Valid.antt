-- ===== src/Keys/Cache/Valid.antt =====
-- What holds of the cache of pkg/router/auth/apikey.go after any calls.
use agenttier.Prelude.{
  ℕ, suc, ◌≤◌, String, none, List, [], ◌∷◌, ◌++◌, ◌≡◌, refl, sym, ap, subst, arith, str_eq, eq_iff,
  eq_refl, if◌then◌else◌, ◌==◌, leb, length, name_cases, inl, inr, In, ◌∙◌, length-append,
  Option-cases, Bool-cases, ◌⊎◌,
}
use agenttier.Keys.Maps.{
  keys, delete_at, lookup-delete_at_self, lookup-delete_at_ne, keys-set_at_old, keys-set_at_new,
  lookup-of_In-keys, delete_at_absent,
}
use agenttier.Keys.Cache.{LruCache, cut_first, put, remove, drop_oldest, make_room, add_new}
use agenttier.Webhook.Subscription.{lookup}

abbrev pub Distinct : List String → Type 0
Distinct [] = Unit
Distinct (k ∷ order) = (In k order → ⊥) × Distinct order

-- A cache of size 0 still keeps the entry that was put last.
abbrev pub room : ℕ → ℕ
room max_size = if max_size == 0 then 1 else max_size

pub record IsValid {V : Type 0} (c : LruCache V) : Type 0 where
  pub agree : keys c.items ≡ c.order
  pub distinct : Distinct c.order
  pub bounded : length c.order ≤ room c.max_size

module _ {V : Type 0} where
  length-keys : (m : List (String × V)) → length (keys m) ≡ length m
  length-keys [] = refl
  length-keys (e ∷ m) = omega (arith, length-keys m)

  keys-delete_at :
      (key : String) (m : List (String × V))
      → Distinct (keys m)
      → keys (delete_at key m) ≡ cut_first key (keys m)
  unfolding delete_at cut_first
  keys-delete_at key [] d = refl
  keys-delete_at key ((k, u) ∷ m) d = elim (name_cases k key) [
    | inl same ↦
        rw ((eq_iff k key).1 same)
          (ap keys (delete_at_absent key m (λ i. d.0 (subst (λ x. In x (keys m)) (sym same) i))))
    | inr other ↦ rw other (ap (◌∷◌ k) (keys-delete_at key m d.1))
  ]

In-cut_first : (q key : String) (order : List String) → In q (cut_first key order) → In q order
unfolding cut_first
In-cut_first q key [] i = i
In-cut_first q key (k ∷ order) i = elim (Bool-cases (str_eq k key)) [
  | inl same ↦ inr (subst (λ b. In q (if b then order else k ∷ cut_first key order)) same i)
  | inr other ↦
      let i' : In q (k ∷ cut_first key order) =
        subst (λ b. In q (if b then order else k ∷ cut_first key order)) other i in
      elim i' [ inl e ↦ inl e | inr j ↦ inr (In-cut_first q key order j) ]
]

cut_first-Distinct :
    (key : String) (order : List String) → Distinct order → Distinct (cut_first key order)
unfolding cut_first
cut_first-Distinct key [] d = tt
cut_first-Distinct key (k ∷ order) d = elim (Bool-cases (str_eq k key)) [
  | inl same ↦ rw same d.1
  | inr other ↦ rw other (λ i. d.0 (In-cut_first k key order i), cut_first-Distinct key order d.1)
]

length-cut_first :
    (key : String) (order : List String) → length (cut_first key order) ≤ length order
unfolding cut_first
length-cut_first key [] = omega arith
length-cut_first key (k ∷ order) = ground (arith, length-cut_first key order)

cut_first_head : (k : String) (order : List String) → cut_first k (k ∷ order) ≡ order
unfolding cut_first
cut_first_head k order = rw (eq_refl k) refl

In-snoc : (q key : String) (order : List String) → In q (order ++ key ∷ []) → In q order ⊎ (q ≡ key)
In-snoc q key [] (inl e) = inr e
In-snoc q key [] (inr i) = absurd i
In-snoc q key (k ∷ order) (inl e) = inl (inl e)
In-snoc q key (k ∷ order) (inr i) = elim (In-snoc q key order i) [
  | inl j ↦ inl (inr j)
  | inr e ↦ inr e
]

snoc-Distinct :
    (key : String) (order : List String)
    → Distinct order
    → (In key order → ⊥)
    → Distinct (order ++ key ∷ [])
snoc-Distinct key [] d out = (λ i. i, tt)
snoc-Distinct key (k ∷ order) d out = (
  λ i. elim (In-snoc k key order i) [ inl j ↦ d.0 j | inr e ↦ out (inl (sym e)) ],
  snoc-Distinct key order d.1 (λ i. out (inr i)),
)

module _ {V : Type 0} where
  pub remove-IsValid : (c : LruCache V) (key : String) → IsValid c → IsValid (remove c key)
  unfolding remove
  remove-IsValid c key h = record {
    agree =
        keys-delete_at key c.items (subst Distinct (sym h.agree) h.distinct)
        ∙ ap (cut_first key) h.agree;
    distinct = cut_first-Distinct key c.order h.distinct;
    bounded = ground (arith, length-cut_first key c.order, h.bounded);
  }

  -- What an eviction has to leave for a new key: one place, and the key still absent.
  abbrev Ready : LruCache V → String → Type 0
  Ready c key =
      (keys c.items ≡ c.order)
      × Distinct c.order
      × (suc (length c.order) ≤ room c.max_size)
      × (lookup key c.items ≡ none)

  absent_after_delete :
      (k key : String) (m : List (String × V))
      → lookup key m ≡ none
      → lookup key (delete_at k m) ≡ none
  absent_after_delete k key m out = elim (name_cases k key) [
    | inl same ↦ subst (λ q. lookup q (delete_at k m) ≡ none) same (lookup-delete_at_self k m)
    | inr other ↦ lookup-delete_at_ne k key m other ∙ out
  ]

  drop_oldest-Ready :
      (c : LruCache V) (key : String) (order : List String)
      → c.order ≡ order
      → IsValid c
      → lookup key c.items ≡ none
      → Ready (drop_oldest c order) key
  drop_oldest-Ready c key [] e h out =
      (h.agree, h.distinct, rw e (ground (arith, Bool-cases (c.max_size == 0))), out)
  drop_oldest-Ready c key (k ∷ order) e h out =
      let d : Distinct (k ∷ order) = subst Distinct e h.distinct in
      let agree : keys c.items ≡ k ∷ order = h.agree ∙ e in
      (
        keys-delete_at k c.items (subst Distinct (sym agree) d)
            ∙ ap (cut_first k) agree
            ∙ cut_first_head k order,
        d.1,
        subst (λ (o : List String). length o ≤ room c.max_size) e h.bounded,
        absent_after_delete k key c.items out,
      )

  make_room-Ready :
      (c : LruCache V) (key : String)
      → IsValid c
      → lookup key c.items ≡ none
      → Ready (make_room c) key
  make_room-Ready c key h out = elim (Bool-cases (leb c.max_size (length c.items))) [
    | inl full ↦ rw full (drop_oldest-Ready c key c.order refl h out)
    | inr free ↦ rw free (
      h.agree,
      h.distinct,
      ground (arith, length-keys c.items, ap (λ (o : List String). length o) h.agree),
      out,
    )
  ]

  add_new-IsValid :
      (c : LruCache V) (key : String) (v : V) → Ready c key → IsValid (add_new c key v)
  add_new-IsValid c key v (agree, distinct, bounded, out) = record {
    agree = keys-set_at_new key v c.items out ∙ ap (λ (o : List String). o ++ key ∷ []) agree;
    distinct =
        snoc-Distinct key c.order distinct
          (λ i. lookup-of_In-keys key c.items out (subst (In key) (sym agree) i));
    bounded = omega (arith, length-append {0} c.order (key ∷ []), bounded);
  }

  pub put-IsValid : (c : LruCache V) (key : String) (v : V) → IsValid c → IsValid (put c key v)
  unfolding put
  put-IsValid c key v h = elim (Option-cases (lookup key c.items)) [
    | inl out ↦ rw (out, put) (add_new-IsValid (make_room c) key v (make_room-Ready c key h out))
    | inr (u, found) ↦
        rw (found, put)
          (record {
            agree = keys-set_at_old key v u c.items found ∙ h.agree;
            distinct = h.distinct;
            bounded = h.bounded;
          })
  ]
