-- ===== src/Keys/Cache/Runs.antt =====
-- The cache of pkg/router/auth/apikey.go against a map that forgets nothing.
use agenttier.Prelude.{
  ℕ, String, Option, none, some, List, [], ◌∷◌, ◌≡◌, refl, sym, ap, subst, arith, str_eq, eq_iff,
  if◌then◌else◌, leb, length, name_cases, inl, inr, ◌∙◌, Option-cases, Bool-cases, ◌≤◌,
}
use agenttier.Keys.Maps.{
  set_at, delete_at, lookup-set_at_self, lookup-set_at_ne, lookup-delete_at_self,
  lookup-delete_at_ne,
}
use agenttier.Keys.Cache.{LruCache, new_lru_cache, get, put, remove, drop_oldest, make_room}
use agenttier.Keys.Cache.Valid.{IsValid, room, put-IsValid, remove-IsValid}
use agenttier.Webhook.Subscription.{lookup}

-- A call that writes. Get only reads.
pub data Call (V : Type 0) : Type 0 where
  put_call : String → V → Call V
  remove_call : String → Call V

module _ {V : Type 0} where
  abbrev pub apply : Call V → LruCache V → LruCache V
  apply (put_call key v) c = put c key v
  apply (remove_call key) c = remove c key

  unfoldable pub run : List (Call V) → LruCache V → LruCache V
  run [] c = c
  run (call ∷ calls) c = run calls (apply call c)

  abbrev pub written : String → Call V → Option V → Option V
  written q (put_call key v) before = if str_eq key q then some v else before
  written q (remove_call key) before = if str_eq key q then none else before

  -- What the calls left at a key: the value put last, unless it was removed since.
  abbrev pub left_at : String → List (Call V) → Option V → Option V
  left_at q [] before = before
  left_at q (call ∷ calls) before = left_at q calls (written q call before)

  abbrev pub Below : Option V → Option V → Type 0
  Below found ideal = (v : V) → found ≡ some v → ideal ≡ some v

  none-some : {o : Option V} (v : V) → o ≡ none → o ≡ some v → ⊥
  none-some v a b = cc

  oldest-Below :
      (c : LruCache V) (q : String) (order : List String)
      → Below (lookup q (drop_oldest c order).items) (lookup q c.items)
  oldest-Below c q [] v e = e
  oldest-Below c q (k ∷ order) v e = elim (name_cases k q) [
    | inl same ↦ absurd (
        none-some v
          (subst (λ x. lookup x (drop_oldest c (k ∷ order)).items ≡ none) same
            (lookup-delete_at_self k c.items))
          e)
    | inr other ↦ sym (lookup-delete_at_ne k q c.items other) ∙ e
  ]

  room-Below :
      (c : LruCache V) (q : String) → Below (lookup q (make_room c).items) (lookup q c.items)
  room-Below c q = elim (Bool-cases (leb c.max_size (length c.items))) [
    | inl full ↦ rw full (oldest-Below c q c.order)
    | inr free ↦ rw free (λ v e. e)
  ]

  -- Put writes to what an eviction may have thinned.
  put_items :
      (c : LruCache V) (key : String) (v : V)
      → (m : List (String × V)) × ((put c key v).items ≡ set_at key v m)
        × ((q : String) → Below (lookup q m) (lookup q c.items))
  unfolding put
  put_items c key v = elim (Option-cases (lookup key c.items)) [
    | inl out ↦ ((make_room c).items, rw (out, put) refl, room-Below c)
    | inr (w, found) ↦ (c.items, rw (found, put) refl, λ q u e. e)
  ]

  pub lookup-put_self :
      (c : LruCache V) (key : String) (v : V) → lookup key (put c key v).items ≡ some v
  lookup-put_self c key v =
      let (m, is, below) = put_items c key v in ap (lookup key) is ∙ lookup-set_at_self key v m

  pub put-Below :
      (c : LruCache V) (q key : String) (v : V)
      → Below (lookup q (put c key v).items) (written q (put_call key v) (lookup q c.items))
  put-Below c q key v u e =
      let (m, is, below) = put_items c key v in
      let e' : lookup q (set_at key v m) ≡ some u = sym (ap (lookup q) is) ∙ e in
      elim (name_cases key q) [
        | inl same ↦ rw ((eq_iff key q).1 same) (
            sym (subst (λ x. lookup x (set_at key v m) ≡ some v) same (lookup-set_at_self key v m))
            ∙ e')
        | inr other ↦ rw other (below q u (sym (lookup-set_at_ne key v q m other) ∙ e'))
      ]

  pub remove-Below :
      (c : LruCache V) (q key : String)
      → Below (lookup q (remove c key).items) (written q (remove_call key) (lookup q c.items))
  unfolding remove
  remove-Below c q key u e = elim (name_cases key q) [
    | inl same ↦ absurd (
        none-some u
          (subst (λ x. lookup x (delete_at key c.items) ≡ none) same
            (lookup-delete_at_self key c.items))
          e)
    | inr other ↦ rw other (sym (lookup-delete_at_ne key q c.items other) ∙ e)
  ]

  written_mono :
      (q : String) (call : Call V) (a b : Option V)
      → Below a b
      → Below (written q call a) (written q call b)
  written_mono q (put_call key v) a b h u e = elim (Bool-cases (str_eq key q)) [
    | inl same ↦ ground (arith, h u)
    | inr other ↦ ground (arith, h u)
  ]
  written_mono q (remove_call key) a b h u e = ground (arith, h u)

  apply-Below :
      (call : Call V) (c : LruCache V) (q : String)
      → Below (lookup q (apply call c).items) (written q call (lookup q c.items))
  apply-Below (put_call key v) c q = put-Below c q key v
  apply-Below (remove_call key) c q = remove-Below c q key

  run-Below :
      (calls : List (Call V)) (c : LruCache V) (q : String) (ideal : Option V)
      → Below (lookup q c.items) ideal
      → Below (lookup q (run calls c).items) (left_at q calls ideal)
  unfolding run
  run-Below [] c q ideal h = h
  run-Below (call ∷ calls) c q ideal h =
      run-Below calls (apply call c) q (written q call ideal)
        (λ u e. written_mono q call (lookup q c.items) ideal h u (apply-Below call c q u e))

  apply-IsValid : (call : Call V) (c : LruCache V) → IsValid c → IsValid (apply call c)
  apply-IsValid (put_call key v) c = put-IsValid c key v
  apply-IsValid (remove_call key) c = remove-IsValid c key

  run-IsValid : (calls : List (Call V)) (c : LruCache V) → IsValid c → IsValid (run calls c)
  unfolding run
  run-IsValid [] c h = h
  run-IsValid (call ∷ calls) c h = run-IsValid calls (apply call c) (apply-IsValid call c h)

  max_size-drop_oldest :
      (c : LruCache V) (order : List String) → (drop_oldest c order).max_size ≡ c.max_size
  max_size-drop_oldest c [] = refl
  max_size-drop_oldest c (k ∷ order) = refl

  max_size-apply : (call : Call V) (c : LruCache V) → (apply call c).max_size ≡ c.max_size
  unfolding put remove
  max_size-apply (put_call key v) c = ground (arith, max_size-drop_oldest c c.order)
  max_size-apply (remove_call key) c = refl

  max_size-run : (calls : List (Call V)) (c : LruCache V) → (run calls c).max_size ≡ c.max_size
  unfolding run
  max_size-run [] c = refl
  max_size-run (call ∷ calls) c = max_size-run calls (apply call c) ∙ max_size-apply call c

  empty-IsValid : (n : ℕ) → IsValid (new_lru_cache {V = V} n)
  unfolding new_lru_cache
  empty-IsValid n = record { agree = refl; distinct = tt; bounded = omega arith }

  -- After any calls of Put and Remove on a new cache, its map and its order hold the same keys, none
  -- twice, and no more of them than the size it was made with, or one where that is 0.
  pub run-new_lru_cache-IsValid :
      (n : ℕ) (calls : List (Call V))
      → IsValid (run calls (new_lru_cache n))
        × (length (run calls (new_lru_cache n)).order ≤ room n)
  unfolding new_lru_cache
  run-new_lru_cache-IsValid n calls =
      let valid = run-IsValid calls (new_lru_cache n) (empty-IsValid n) in
      (
        valid,
        subst (λ m. length (run calls (new_lru_cache n)).order ≤ room m)
            (max_size-run calls (new_lru_cache n)) valid.bounded,
      )

  -- After any calls of Put and Remove on a new cache, a value that Get finds at a key is the one that
  -- was put there last, and the key was not removed since.
  pub get-run :
      (n : ℕ) (calls : List (Call V)) (q : String) (v : V)
      → get (run calls (new_lru_cache n)) q ≡ some v
      → left_at q calls none ≡ some v
  unfolding get new_lru_cache lookup
  get-run n calls q = run-Below calls (new_lru_cache n) q none (λ u e. e)
