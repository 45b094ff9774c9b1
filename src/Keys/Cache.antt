-- ===== src/Keys/Cache.antt =====
-- LRUCache of pkg/router/auth/apikey.go. The map's entries stand in the order in which their keys came.
pub mod Valid
pub mod Runs
use agenttier.Prelude.{
  ℕ, String, Option, none, some, List, [], ◌∷◌, ◌++◌, if◌then◌else◌, leb, length, str_eq,
}
use agenttier.Keys.Maps.{set_at, delete_at}
use agenttier.Webhook.Subscription.{lookup}

pub record LruCache (V : Type 0) : Type 0 where
  pub max_size : ℕ
  pub items : List (String × V)
  pub order : List String

-- The loop of Remove: the first entry with the key is cut out.
unfoldable pub cut_first : String → List String → List String
cut_first key [] = []
cut_first key (k ∷ order) =
    let rest = cut_first key order in if str_eq k key then order else k ∷ rest

module _ {V : Type 0} where
  unfoldable pub new_lru_cache : ℕ → LruCache V
  new_lru_cache max_size = record { max_size = max_size; items = []; order = [] }

  unfoldable pub get : LruCache V → String → Option V
  get c key = lookup key c.items

  abbrev pub drop_oldest : LruCache V → List String → LruCache V
  drop_oldest c [] = c
  drop_oldest c (oldest ∷ order) = record c { items = delete_at oldest c.items; order = order }

  abbrev pub make_room : LruCache V → LruCache V
  make_room c = if leb c.max_size (length c.items) then drop_oldest c c.order else c

  abbrev pub add_new : LruCache V → String → V → LruCache V
  add_new c key v = record c { items = set_at key v c.items; order = c.order ++ key ∷ [] }

  unfoldable pub put : LruCache V → String → V → LruCache V
  put c key v = elim (lookup key c.items) [
    | some _ ↦ record c { items = set_at key v c.items }
    | none ↦ add_new (make_room c) key v
  ]

  unfoldable pub remove : LruCache V → String → LruCache V
  remove c key = record c { items = delete_at key c.items; order = cut_first key c.order }
