-- ===== src/Keys/Store/Owners.antt =====
-- pkg/apikeystore/store.go: what a stored key is read back as, who sees it, and who may delete it.
use agenttier.Prelude.{
  String, Bool, true, false, not, ◌&&◌, Option, none, some, List, [], ◌∷◌, map, ◌≡◌, ◌≢◌, refl, ap,
  subst, ◌∙◌, arith, str_eq, eq_iff, eq_refl, Text, codes, In, inl, inr, ◌⊎◌,
}
use agenttier.Keys.{ApiKeyRecord}
use agenttier.Keys.Labels.{sanitize_label_value}
use agenttier.Keys.Store.{
  Secret, created, create_failed, Client, Json, Metadata, deleted, labels_of_user,
  secret_purpose_label, user_label, is_api_key, filled_in, metadata_of, secret_of, record_in,
  get_api_key_by_hash, create_encoded, create_key, listed, list_for_user, delete_found, deletion,
  delete_key,
}
use agenttier.Reconcile.Cleanup.{secret_name_for_hash}

In-map : {A B : Type 0} (f : A → B) (a : A) (l : List A) → In a l → In (f a) (map f l)
In-map f a (x ∷ l) (inl e) = inl (ap f e)
In-map f a (x ∷ l) (inr i) = inr (In-map f a l i)
In-map f a [] i = absurd i

module _ (json : Json) (c : Client json.Raw) where
  open json use {marshal, unmarshal}
  open c use {World, get, create, list, delete}

  -- A Secret that was created is what a Get of its name answers in the cluster after it.
  abbrev pub CreatedIsRead : Type 0
  CreatedIsRead =
      (s : Secret json.Raw) (w w' : World) → create s w ≡ (created, w') → (get s.name w').0 ≡ some s

  -- A Secret that was created is in a List by its labels in the cluster after it.
  abbrev pub CreatedIsListed : Type 0
  CreatedIsListed =
      (s : Secret json.Raw) (w w' : World) (l : List (Secret json.Raw))
      → create s w ≡ (created, w')
      → (list s.labels w').0 ≡ some l
      → In s l

  abbrev pub ReadsBack : ApiKeyRecord → Type 0
  ReadsBack r = (raw : json.Raw) → marshal r ≡ some raw → unmarshal raw ≡ (r, true)

  -- Only a record that is encoded is created.
  encoded :
      (hash : String) (r : ApiKeyRecord) (encoding : Option json.Raw) (w w' : World)
      → marshal r ≡ encoding
      → create_encoded json c hash r encoding w ≡ (created, w')
      → (raw : json.Raw) × (marshal r ≡ some raw)
        × (create (secret_of json hash r raw) w ≡ (created, w'))
  encoded hash r none w w' is made = absurd (different (ap (λ x. x.0) made))
    where
      different : create_failed ≡ created → ⊥
      different e = cc
  encoded hash r (some raw) w w' is made = (raw, is, made)

  -- Where a created Secret can be read, and encoding/json decodes what it encoded, a key that was
  -- created is found by its hash, with the record that it was created with.
  pub get_api_key_by_hash-create_key :
      (hash : String) (r : ApiKeyRecord) (w w' : World)
      → CreatedIsRead
      → ReadsBack r
      → create_key json c hash r w ≡ (created, w')
      → (get_api_key_by_hash json c hash w').0 ≡ some r
  unfolding create_key get_api_key_by_hash
  get_api_key_by_hash-create_key hash r w w' reads back made =
      let (raw, is, sent) = encoded hash r (marshal r) w w' refl made in
      ap (record_in json hash) (reads (secret_of json hash r raw) w w' sent)
      ∙ rw (eq_refl hash, back raw is) refl

  listed_some :
      (answer : Option (List (Secret json.Raw)) × World) (keys : List Metadata)
      → (listed json c answer).0 ≡ some keys
      → (l : List (Secret json.Raw)) × (answer.0 ≡ some l) × (keys ≡ map (metadata_of json) l)
  listed_some (none, w) keys is = cc
  listed_some (some l, w) keys is = (l, refl, ground arith)

  -- A key that was created is listed, with its metadata, for its owner, and for every other user whose
  -- identifier makes the same label value.
  pub list_for_user-create_key :
      (hash : String) (r : ApiKeyRecord) (user_id : String) (w w' : World) (keys : List Metadata)
      → CreatedIsListed
      → ReadsBack r
      → sanitize_label_value (codes user_id) ≡ sanitize_label_value (codes r.user_id)
      → create_key json c hash r w ≡ (created, w')
      → (list_for_user json c user_id w').0 ≡ some keys
      → (m : Metadata) × In m keys
        × (m.id ≡ secret_name_for_hash hash)
        × (m.user_id ≡ r.user_id)
        × (m.sandbox_id ≡ r.sandbox_id)
  unfolding create_key list_for_user
  list_for_user-create_key hash r user_id w w' keys shows back same made is =
      let (raw, encodes, sent) = encoded hash r (marshal r) w w' refl made in
      let s = secret_of json hash r raw in
      let (l, lists, are) = listed_some (list (labels_of_user user_id) w') keys is in
      let member = shows s w w' l sent (
        subst
          (λ (u : Text).
            (list ((secret_purpose_label, codes "api-key") ∷ (user_label, u) ∷ []) w').0 ≡ some l)
          same lists) in
      (
        metadata_of json s,
        rw are (In-map (metadata_of json) s l member),
        refl,
        rw (back raw encodes) refl,
        rw (back raw encodes) refl,
      )

  deletion_lem :
      (hash h : String) (answer : Bool × World)
      → (deletion json c hash answer).0 ≡ deleted h
      → (hash ≡ h) × (answer.0 ≡ true)
  deletion_lem hash h (true, w) is = (cc, refl)
  deletion_lem hash h (false, w) is = cc

  delete_found_lem :
      (user_id : String) (is_admin : Bool) (answer : Option (Secret json.Raw) × World) (h : String)
      → (delete_found json c user_id is_admin answer).0 ≡ deleted h
      → (s : Secret json.Raw) × (answer.0 ≡ some s)
        × (is_api_key s ≡ true)
        × (s.key_hash ≡ h)
        × ((is_admin ≡ true) ⊎ ((filled_in json s.record_json).user_id ≡ user_id))
        × ((delete s answer.1).0 ≡ true)
  delete_found_lem user_id is_admin (none, w) h is = cc
  delete_found_lem user_id is_admin (some s, w) h is =
      let (hash, done) = deletion_lem s.key_hash h (delete s w) (ground arith) in
      (
        s,
        refl,
        ground arith,
        hash,
        allowed is_admin (str_eq owner user_id) (eq_iff owner user_id).0 (ground arith),
        done,
      )
    where
      owner : String
      owner = (filled_in json s.record_json).user_id

      allowed :
          (a b : Bool)
          → (b ≡ true → owner ≡ user_id)
          → (not a && not b) ≡ false
          → (a ≡ true) ⊎ (owner ≡ user_id)
      allowed true b same e = inl refl
      allowed false true same e = inr (same refl)
      allowed false false same e = absurd (cc)

  -- Delete reports a hash only for a Secret of the store that is found under the identifier and holds
  -- the hash, when the caller is an admin or the record's owner, and the Secret was deleted.
  pub delete_key_lem :
      (key_id user_id : String) (is_admin : Bool) (w : World) (h : String)
      → (delete_key json c key_id user_id is_admin w).0 ≡ deleted h
      → (s : Secret json.Raw) × ((get key_id w).0 ≡ some s)
        × (is_api_key s ≡ true)
        × (s.key_hash ≡ h)
        × ((is_admin ≡ true) ⊎ ((filled_in json s.record_json).user_id ≡ user_id))
        × ((delete s (get key_id w).1).0 ≡ true)
  unfolding delete_key
  delete_key_lem key_id user_id is_admin w h is =
      delete_found_lem user_id is_admin (get key_id w) h is

  -- Delete by one who is no admin and not the owner of the record in the Secret that is found reports
  -- no hash, and does no more to the cluster than read.
  pub delete_key_other :
      (key_id user_id : String) (w w' : World) (s : Secret json.Raw)
      → get key_id w ≡ (some s, w')
      → str_eq (filled_in json s.record_json).user_id user_id ≡ false
      → ((delete_key json c key_id user_id false w).1 ≡ w')
        × ((h : String) → (delete_key json c key_id user_id false w).0 ≢ deleted h)
  unfolding delete_key
  delete_key_other key_id user_id w w' s found other = rw found (ground arith, λ h e. ground arith)
