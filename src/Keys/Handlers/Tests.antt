-- ===== src/Keys/Handlers/Tests.antt =====
-- The theorems on the requests for API keys, on the store and on minting in a concrete cluster.
use agenttier.Prelude.{
  String, Bool, true, false, Option, none, some, List, [], ◌∷◌, ◌≡◌, refl, ap, subst, ◌∙◌,
  if◌then◌else◌, str_eq, eq_refl, Bool-cases, inl, inr, In, codes,
}
use agenttier.Prelude.Int.{pos}
use agenttier.Keys.{ApiKeyRecord}
use agenttier.Keys.Cache.{new_lru_cache, get}
use agenttier.Keys.Handlers.{
  CreateRequest, CreatedKey, respond, Env, granted_groups, handle_create_api_key,
  handle_revoke_api_key,
}
use agenttier.Keys.Handlers.Scopes.{Made, handle_create_api_key-Made}
use agenttier.Keys.Handlers.Use.{
  stored_in, DeletedIsGone, validate_key-handle_create_api_key, validate_key-handle_revoke_api_key,
}
use agenttier.Keys.Labels.{sanitize_label_value, trim_start, trim_end}
use agenttier.Keys.Labels.Valid.{IsLabel, sanitize_label_value-IsLabel}
use agenttier.Keys.Minting.{
  SandboxOwner, Draw, default_scoped_key_action_groups, scoped_record, Plaintexts,
  ensure_sandbox_api_key_secret,
}
use agenttier.Keys.Minting.Usable as Usable
use agenttier.Keys.Store.{
  Secret, Creation, created, already_exists, Client, Json, Metadata, create_key, list_for_user,
  get_api_key_by_hash, delete_key,
}
use agenttier.Keys.Store.Owners.{
  CreatedIsRead, CreatedIsListed, ReadsBack, list_for_user-create_key,
}
use agenttier.Keys.Validator.{
  Claims, accepted, key_not_found, Validator, Readings, new_api_key_validator, validate_key,
}
use agenttier.Reconcile.Cleanup.{secret_name_for_hash}
use agenttier.Reconcile.World.{missing}
use agenttier.Webhook.Subscription.{lookup}

sanitize_label_value-IsLabel_example : IsLabel (sanitize_label_value (codes "auth0|ada"))
sanitize_label_value-IsLabel_example = sanitize_label_value-IsLabel (codes "auth0|ada")

-- A record is its own encoding, and the cluster is the list of its Secrets.
abbrev json : Json
json = record { Raw = ApiKeyRecord; marshal = λ r. some r; unmarshal = λ r. (r, true) }

abbrev Secrets : Type 0
Secrets = List (Secret ApiKeyRecord)

find : String → Secrets → Option (Secret ApiKeyRecord)
find name [] = none
find name (s ∷ secrets) =
    let rest = find name secrets in if str_eq s.name name then some s else rest

drop_named : String → Secrets → Secrets
drop_named name [] = []
drop_named name (s ∷ secrets) =
    let rest = drop_named name secrets in if str_eq s.name name then rest else s ∷ rest

abbrev client : Client ApiKeyRecord
client = record {
  World = Secrets;
  get = λ name w. (find name w, w);
  create = λ s w. (created, s ∷ w);
  list = λ labels w. (some w, w);
  delete = λ s w. (true, drop_named s.name w);
}

client-reads : CreatedIsRead json client
unfolding find
client-reads s w w' made =
    let is : s ∷ w ≡ w' = ap (λ (x : Creation × Secrets). x.1) made in
    subst (λ (x : Secrets). find s.name x ≡ some s) is (rw (eq_refl s.name) refl)

client-lists : CreatedIsListed json client
client-lists s w w' l made is =
    let made' : s ∷ w ≡ w' = ap (λ (x : Creation × Secrets). x.1) made in
    let all : s ∷ w ≡ l = made' ∙ listed is in subst (In s) all (inl refl)
  where
    listed : {x : Secrets} → some x ≡ some l → x ≡ l
    listed h = cc

client-deletes : DeletedIsGone json client
unfolding find drop_named
client-deletes s w w' done =
    subst (λ (x : Secrets). find s.name x ≡ none) (ap (λ (x : Bool × Secrets). x.1) done) (gone w)
  where
    gone : (l : Secrets) → find s.name (drop_named s.name l) ≡ none
    gone [] = refl
    gone (x ∷ l) = elim (Bool-cases (str_eq x.name s.name)) [
      | inl same ↦ rw same (gone l)
      | inr other ↦ rw (other, other) (gone l)
    ]

client-decodes : (r : ApiKeyRecord) → ReadsBack json client r
client-decodes r raw is = ap (λ (x : ApiKeyRecord). (x, true)) (raw_is is)
  where
    raw_is : {x y : ApiKeyRecord} → some x ≡ some y → y ≡ x
    raw_is h = cc

abbrev ada : Claims
ada = record {
  sub = "ada";
  email = "";
  name = "";
  groups = [];
  is_admin = false;
  sandbox_id = "";
  action_groups = [];
}

-- Keys are their own hashes here.
abbrev env : Env
env = record {
  parse_duration = λ text. some (pos 50);
  access_error = λ id claims. none;
  random_key = some "key-1";
  hash_api_key = λ key. key;
  expiry_now = 10;
  created_now = 11;
}

abbrev request : CreateRequest
request = record { name = "ci"; expires_in = "50ns"; sandbox_id = "sb-1"; scopes = "stop" ∷ [] }

abbrev ci_key : CreatedKey
ci_key = record {
  id = "agenttier-apikey-key-1";
  key = "key-1";
  name = "ci";
  sandbox_id = "sb-1";
  action_groups = "stop" ∷ [];
  created_at = 11;
  expires_at = some 60;
}

abbrev after_request : Secrets
after_request = (handle_create_api_key json client env (some ada) (some request) []).1

made_key :
    handle_create_api_key json client env (some ada) (some request) []
    ≡ (respond ci_key, after_request)
unfolding handle_create_api_key granted_groups create_key
made_key = refl

handle_create_api_key-Made_example :
    (claims : Claims) × (req : CreateRequest) × (some ada ≡ some claims)
    × (some request ≡ some req)
    × Made json client env claims req ci_key [] after_request
handle_create_api_key-Made_example =
    handle_create_api_key-Made json client env (some ada) (some request) [] ci_key after_request
      made_key

abbrev fresh : Validator
fresh = new_api_key_validator 10 30

abbrev at_20 : Readings
at_20 = record { at_hit = 20; at_age = 20; at_check = 20; at_put = 20 }

uncached : get fresh.cache "key-1" ≡ none
unfolding get lookup new_api_key_validator new_lru_cache
uncached = refl

validate_key-handle_create_api_key_example :
    (a : Claims) × ((validate_key env.hash_api_key fresh at_20
        (stored_in json client after_request)
        ci_key.key).0
      ≡ accepted a)
    × (a.sub ≡ ada.sub)
    × (a.sandbox_id ≡ ci_key.sandbox_id)
    × (a.action_groups ≡ ci_key.action_groups)
validate_key-handle_create_api_key_example =
    validate_key-handle_create_api_key json client env ada (some request) [] ci_key after_request
      fresh at_20 client-reads client-decodes made_key uncached refl

abbrev ci_secret : Secret ApiKeyRecord
ci_secret = record {
  name = "agenttier-apikey-key-1";
  labels =
      ("agenttier.io/secret-purpose", codes "api-key")
      ∷ ("agenttier.io/api-key-user", codes "ada")
      ∷ [];
  key_hash = "key-1";
  record_json = some (record {
    key_hash = "key-1";
    user_id = "ada";
    email = "";
    name = "ci";
    scopes = [];
    allowed_namespaces = [];
    sandbox_id = "sb-1";
    action_groups = "stop" ∷ [];
    created_at = 11;
    expires_at = some 60;
    last_used_at = none;
  });
}

abbrev after_revoke : Validator × Secrets
after_revoke =
    let out =
      handle_revoke_api_key json client (some ada) "agenttier-apikey-key-1" fresh
        (ci_secret ∷ []) in
    (out.1, out.2)

revoked_key :
    handle_revoke_api_key json client (some ada) "agenttier-apikey-key-1" fresh (ci_secret ∷ [])
    ≡ (respond "agenttier-apikey-key-1", after_revoke.0, after_revoke.1)
unfolding handle_revoke_api_key delete_key find lookup
revoked_key = refl

found_secret : find "agenttier-apikey-key-1" (ci_secret ∷ []) ≡ some ci_secret
unfolding find
found_secret = refl

validate_key-handle_revoke_api_key_example :
    (validate_key env.hash_api_key after_revoke.0 at_20
      (stored_in json client after_revoke.1)
      "key-1").0
    ≡ key_not_found
validate_key-handle_revoke_api_key_example =
    validate_key-handle_revoke_api_key json client ada "agenttier-apikey-key-1" fresh
      (ci_secret ∷ []) after_revoke.0 after_revoke.1 ci_secret env.hash_api_key at_20 "key-1"
      client-deletes found_secret refl refl revoked_key refl

-- Another identity that makes the same label value.
abbrev colon_record : ApiKeyRecord
colon_record = record (scoped_record (record { name = "sb-1"; created_by = some "a:b" }) "h" 5) {
  sandbox_id = "";
}

abbrev with_colon_key : Secrets
with_colon_key = (create_key json client "h" colon_record []).1

colon_created : create_key json client "h" colon_record [] ≡ (created, with_colon_key)
unfolding create_key
colon_created = refl

same_label : sanitize_label_value (codes "a-b") ≡ sanitize_label_value (codes "a:b")
unfolding sanitize_label_value trim_start trim_end
same_label = refl

abbrev listed_keys : List Metadata
listed_keys =
    record {
      id = "agenttier-apikey-h";
      user_id = "a:b";
      name = "sandbox-scoped: sb-1";
      sandbox_id = "";
      action_groups = default_scoped_key_action_groups;
      created_at = 5;
      expires_at = none;
      last_used_at = none;
    }
    ∷ []

lists_colon : (list_for_user json client "a-b" with_colon_key).0 ≡ some listed_keys
unfolding list_for_user create_key
lists_colon = refl

list_for_user-create_key_example :
    (m : Metadata) × In m listed_keys
    × (m.id ≡ secret_name_for_hash "h")
    × (m.user_id ≡ "a:b")
    × (m.sandbox_id ≡ "")
list_for_user-create_key_example =
    list_for_user-create_key json client "h" colon_record "a-b" [] with_colon_key listed_keys
      client-lists (client-decodes colon_record) same_label colon_created lists_colon

-- A mint that finds another's plaintext Secret when it comes to make its own.
abbrev owned : SandboxOwner
owned = record { name = "sb-1"; created_by = some "ada" }

abbrev raced : Plaintexts json client (λ key. key)
raced = record { read = λ name w. (missing, w); make = λ name key w. (already_exists, w) }

abbrev draw : Draw
draw = record { random_key = some "key-2"; owner_set = true; now = 5 }

fresh_uncached : get fresh.cache "key-2" ≡ none
unfolding get lookup new_api_key_validator new_lru_cache
fresh_uncached = refl

abbrev with_scoped_key : Secrets
with_scoped_key = (ensure_sandbox_api_key_secret json client (λ key. key) raced owned draw []).1

scoped_absent : get_api_key_by_hash json client "key-2" [] ≡ (none, [])
unfolding get_api_key_by_hash find
scoped_absent = refl

empty_store_creates :
    (s : Secret ApiKeyRecord)
    → s.name ≡ secret_name_for_hash "key-2"
    → (client.create s []).0 ≡ created
unfolding find
empty_store_creates s is = refl

validate_key-ensure_sandbox_api_key_secret_example :
    (claims : Claims) × ((validate_key
        (λ key. key)
        fresh
        at_20
        (Usable.stored_in json client (λ key. key) raced with_scoped_key)
        "key-2").0
      ≡ accepted claims)
    × (claims.sandbox_id ≡ "sb-1")
    × (claims.action_groups
        ≡ "run-command" ∷ "files:read" ∷ "files:write" ∷ "ports" ∷ "agent:invoke"
          ∷ "agent:configure" ∷ "resume" ∷ "stop" ∷ [])
    × ((sub : String) → some "ada" ≡ some sub → claims.sub ≡ sub)
validate_key-ensure_sandbox_api_key_secret_example =
    Usable.validate_key-ensure_sandbox_api_key_secret json client (λ key. key) raced owned draw []
      [] [] "key-2" fresh at_20 client-reads client-decodes (λ r. (r, refl))
      (λ name key hash w. refl) refl refl scoped_absent empty_store_creates fresh_uncached
