-- ===== src/Keys/Minting/Usable.antt =====
-- ensureSandboxAPIKeySecret of pkg/controller/scoped_key.go: what a mint leaves behind, and that it
-- passes authentication.
use agenttier.Prelude.{
  String, Bool, true, false, not, Option, none, some, [], ◌∷◌, ◌≡◌, refl, ap, ◌∙◌, if◌then◌else◌,
}
use agenttier.Keys.{ApiKeyRecord}
use agenttier.Keys.Minting.{
  SandboxOwner, Draw, scoped_record, Plaintexts, ensure_hashed_scoped_key_record, mint_failed, made,
  publish, ensure_sandbox_api_key_secret,
}
use agenttier.Keys.Store.{
  Secret, secret_of, Creation, created, already_exists, create_failed, Client, Json, create_key,
  get_api_key_by_hash,
}
use agenttier.Keys.Store.Owners.{CreatedIsRead, ReadsBack, get_api_key_by_hash-create_key}
use agenttier.Keys.Cache.{get}
use agenttier.Keys.Validator.{
  Claims, accepted, Validator, Readings, claims_of, check_cache, finish, validate_key,
}
use agenttier.Reconcile.Cleanup.{scoped_key_secret_name, secret_name_for_hash}
use agenttier.Reconcile.World.{missing}

module _ (json : Json) (c : Client json.Raw) (hash_api_key : String → String)
    (plain : Plaintexts json c hash_api_key) where
  open c use {World}

  abbrev pub stored_in : World → String → Option ApiKeyRecord
  stored_in w hash = (get_api_key_by_hash json c hash w).0

  -- Making a plaintext Secret, done or not, leaves the records of the store as they are.
  abbrev pub MakeLeavesRecords : Type 0
  MakeLeavesRecords =
      (name key hash : String) (w : World)
      → stored_in (plain.make name key w).1 hash ≡ stored_in w hash

  made_world :
      (name : String) (answer : Creation × World)
      → (made json c hash_api_key plain name answer).1 ≡ answer.1
  made_world name (created, w) = refl
  made_world name (already_exists, w) = refl
  made_world name (create_failed, w) = refl

  -- Whatever becomes of the plaintext Secret, the records are those that were there.
  publish-stored_in :
      (draw : Draw) (name key hash : String) (w : World)
      → MakeLeavesRecords
      → stored_in (publish json c hash_api_key plain draw name key (true, w)).1 hash
        ≡ stored_in w hash
  publish-stored_in draw name key hash w leaves = either draw.owner_set
    where
      either :
          (owned : Bool)
          → stored_in
              (if not owned
                then (mint_failed, w)
                else made json c hash_api_key plain name (plain.make name key w)).1
              hash
            ≡ stored_in w hash
      either true =
          ap (λ (x : World). stored_in x hash) (made_world name (plain.make name key w))
          ∙ leaves name key hash w
      either false = refl

  -- A store that creates each Secret of the record's name creates the record.
  create_key-created :
      (hash : String) (r : ApiKeyRecord) (w : World)
      → ((x : ApiKeyRecord) → (raw : json.Raw) × (json.marshal x ≡ some raw))
      → ((s : Secret json.Raw) → s.name ≡ secret_name_for_hash hash → (c.create s w).0 ≡ created)
      → create_key json c hash r w ≡ (created, (create_key json c hash r w).1)
  unfolding create_key
  create_key-created hash r w encodes creates =
      let (raw, is) = encodes r in
      let sent = c.create (secret_of json hash r raw) w in
      rw is (ap (λ (a : Creation). (a, sent.1)) (creates (secret_of json hash r raw) refl))

  stored_in-ensure_sandbox_api_key_secret :
      (sb : SandboxOwner) (draw : Draw) (w w1 w2 : World) (key : String)
      → CreatedIsRead json c
      → ((r : ApiKeyRecord) → ReadsBack json c r)
      → ((r : ApiKeyRecord) → (raw : json.Raw) × (json.marshal r ≡ some raw))
      → MakeLeavesRecords
      → plain.read (scoped_key_secret_name sb.name) w ≡ (missing, w1)
      → draw.random_key ≡ some key
      → get_api_key_by_hash json c (hash_api_key key) w1 ≡ (none, w2)
      → ((s : Secret json.Raw)
          → s.name ≡ secret_name_for_hash (hash_api_key key)
          → (c.create s w2).0 ≡ created)
      → stored_in
          (ensure_sandbox_api_key_secret json c hash_api_key plain sb draw w).1
          (hash_api_key key)
        ≡ some (scoped_record sb (hash_api_key key) draw.now)
  unfolding ensure_sandbox_api_key_secret ensure_hashed_scoped_key_record
  stored_in-ensure_sandbox_api_key_secret sb draw w w1 w2 key reads back encodes leaves is drawn
        absent creates =
      let hash = hash_api_key key in
      let name = scoped_key_secret_name sb.name in
      let r = scoped_record sb hash draw.now in
      let w3 = (create_key json c hash r w2).1 in
      let wrote = create_key-created hash r w2 encodes creates in
      rw (is, drawn, absent, wrote)
        (publish-stored_in draw name key hash w3 leaves
          ∙ get_api_key_by_hash-create_key json c hash r w2 w3 reads (back r) wrote)

  -- The key of a mint that finds no plaintext Secret passes authentication at any time, with the sandbox
  -- and the eight action groups, for the sandbox's creator, by any validator that has not cached it,
  -- whatever the creation of the plaintext Secret answers: also when another call's Secret is there,
  -- or none could be made, so that no Secret holds the key. This is so where a created Secret can be
  -- read, encoding/json encodes each record and decodes what it encoded, no record of the key's hash
  -- is there, the store creates Secrets of the record's name, and making a plaintext Secret leaves the
  -- records.
  pub validate_key-ensure_sandbox_api_key_secret :
      (sb : SandboxOwner) (draw : Draw) (w w1 w2 : World) (key : String) (v : Validator)
      (t : Readings)
      → CreatedIsRead json c
      → ((r : ApiKeyRecord) → ReadsBack json c r)
      → ((r : ApiKeyRecord) → (raw : json.Raw) × (json.marshal r ≡ some raw))
      → MakeLeavesRecords
      → plain.read (scoped_key_secret_name sb.name) w ≡ (missing, w1)
      → draw.random_key ≡ some key
      → get_api_key_by_hash json c (hash_api_key key) w1 ≡ (none, w2)
      → ((s : Secret json.Raw)
          → s.name ≡ secret_name_for_hash (hash_api_key key)
          → (c.create s w2).0 ≡ created)
      → get v.cache (hash_api_key key) ≡ none
      → let out = (ensure_sandbox_api_key_secret json c hash_api_key plain sb draw w).1 in
        (claims : Claims) × ((validate_key hash_api_key v t (stored_in out) key).0
          ≡ accepted claims)
        × (claims.sandbox_id ≡ sb.name)
        × (claims.action_groups
            ≡ "run-command" ∷ "files:read" ∷ "files:write" ∷ "ports" ∷ "agent:invoke"
              ∷ "agent:configure" ∷ "resume" ∷ "stop" ∷ [])
        × ((sub : String) → sb.created_by ≡ some sub → claims.sub ≡ sub)
  unfolding validate_key check_cache finish
  validate_key-ensure_sandbox_api_key_secret sb draw w w1 w2 key v t reads back encodes leaves is
        drawn absent creates uncached =
      let stored =
        stored_in-ensure_sandbox_api_key_secret sb draw w w1 w2 key reads back encodes leaves is
          drawn absent creates in
      (
        claims_of (scoped_record sb (hash_api_key key) draw.now),
        rw (uncached, stored) refl,
        refl,
        refl,
        λ sub by. rw by refl,
      )
