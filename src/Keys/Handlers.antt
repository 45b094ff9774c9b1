-- ===== src/Keys/Handlers.antt =====
-- pkg/router/apikey_handlers.go: the requests that list, create and revoke API keys. What decodes the
-- body, reads the clock, draws random bytes and looks the sandbox up is an argument. An error has its
-- status and the first words of its message. The server has a validator.
pub mod Scopes
pub mod Use
mod Tests
use Prim.Native.String
use agenttier.Prelude.{
  String, Bool, true, false, not, Option, none, some, List, [], ◌∷◌, if◌then◌else◌, str_eq, ℕ, ◌+◌,
  is_empty, any,
}
use agenttier.Prelude.Int.{ℤ, pos, pos_part, ltb_ℤ}
use agenttier.Keys.{ApiKeyRecord}
use agenttier.Keys.Store.{
  Creation, created, Client, Json, Metadata, Deletion, deleted, missing_key, access_denied,
  delete_failed, create_key, list_for_user, delete_key,
}
use agenttier.Keys.Validator.{Claims, Validator, without}
use agenttier.Reconcile.Cleanup.{secret_name_for_hash}

abbrev pub valid_action_groups : List String
valid_action_groups =
    "run-command" ∷ "files:read" ∷ "files:write" ∷ "ports" ∷ "agent:invoke" ∷ "agent:configure"
    ∷ "resume" ∷ "stop" ∷ []

abbrev pub default_scoped_key_action_groups : List String
default_scoped_key_action_groups =
    "run-command" ∷ "files:read" ∷ "files:write" ∷ "ports" ∷ "agent:invoke" ∷ "agent:configure"
    ∷ "resume" ∷ "stop" ∷ []

-- The decoded body.
pub record CreateRequest : Type 0 where
  pub name : String
  pub expires_in : String
  pub sandbox_id : String
  pub scopes : List String

pub record CreatedKey : Type 0 where
  pub id : String
  pub key : String
  pub name : String
  pub sandbox_id : String
  pub action_groups : List String
  pub created_at : ℕ
  pub expires_at : Option ℕ

-- An error's status, or the body of a success.
pub data Response (A : Type 0) : Type 0 where
  respond : A → Response A
  error : ℕ → String → Response A

-- `parse_duration` is time.ParseDuration in nanoseconds, `access_error` getSandboxWithAuthCheck's
-- error, `random_key` what generateAPIKey returns, and `hash_api_key` SHA-256.
pub record Env : Type 0 where
  pub parse_duration : String → Option ℤ
  pub access_error : String → Claims → Option String
  pub random_key : Option String
  pub hash_api_key : String → String
  pub expiry_now : ℕ
  pub created_now : ℕ

-- expiresAt: absent, or an instant, or the request is refused.
abbrev pub positive_duration : ℕ → Option ℤ → Option (Option ℕ)
positive_duration now none = none
positive_duration now (some d) = if ltb_ℤ (pos 0) d then some (some (now + pos_part d)) else none

abbrev pub expiry : Env → String → Option (Option ℕ)
expiry env expires_in =
    if str_eq expires_in ""
    then some none
    else positive_duration env.expiry_now (env.parse_duration expires_in)

-- The loop over the action groups: the message of the first one that is refused.
abbrev pub refused_group : List String → Option String
refused_group [] = none
refused_group (scope ∷ scopes) =
    let rest = refused_group scopes in
    if str_eq scope "delete"
    then some "\"delete\" is not a valid action group"
    else (if not (any (λ g. str_eq g scope) valid_action_groups)
        then some (String.◌++◌ "unknown action group: " scope)
        else rest)

abbrev pub or_default : List String → List String
or_default scopes = if is_empty scopes then default_scoped_key_action_groups else scopes

-- The groups of the new key, or why there is none.
abbrev pub groups_or_error : List String → Option String → Response (List String)
groups_or_error groups none = respond groups
groups_or_error groups (some message) = error 400 message

abbrev pub groups_for_sandbox : List String → Option String → Response (List String)
groups_for_sandbox scopes (some denied) = error 404 denied
groups_for_sandbox scopes none =
    groups_or_error (or_default scopes) (refused_group (or_default scopes))

unfoldable pub granted_groups : Env → Claims → CreateRequest → Response (List String)
granted_groups env claims req =
    if not (str_eq req.sandbox_id "")
    then groups_for_sandbox req.scopes (env.access_error req.sandbox_id claims)
    else (if is_empty req.scopes then respond [] else error 400 "scopes requires sandboxId")

abbrev pub record_of : Env → Claims → CreateRequest → Option ℕ → List String → String → ApiKeyRecord
record_of env claims req expires_at groups hash = record {
  key_hash = hash;
  user_id = claims.sub;
  email = claims.email;
  name = req.name;
  scopes = [];
  allowed_namespaces = [];
  sandbox_id = req.sandbox_id;
  action_groups = groups;
  created_at = env.created_now;
  expires_at = expires_at;
  last_used_at = none;
}

module _ (json : Json) (c : Client json.Raw) where
  open c use {World}

  abbrev pub answered_key : String → ApiKeyRecord → Creation × World → Response CreatedKey × World
  answered_key key r (created, w) = (
    respond (record {
      id = secret_name_for_hash r.key_hash;
      key = key;
      name = r.name;
      sandbox_id = r.sandbox_id;
      action_groups = r.action_groups;
      created_at = r.created_at;
      expires_at = r.expires_at;
    }),
    w,
  )
  answered_key key r (_, w) = (error 500 "failed to store API key", w)

  abbrev pub stored_key :
      Env
      → Claims
      → CreateRequest
      → Option ℕ
      → List String
      → Option String
      → World
      → Response CreatedKey × World
  stored_key env claims req expires_at groups none w = (error 500 "failed to generate key", w)
  stored_key env claims req expires_at groups (some key) w =
      let hash = env.hash_api_key key in
      let r = record_of env claims req expires_at groups hash in
      answered_key key r (create_key json c hash r w)

  abbrev pub granted_key :
      Env
      → Claims
      → CreateRequest
      → Option ℕ
      → Response (List String)
      → World
      → Response CreatedKey × World
  granted_key env claims req expires_at (error code message) w = (error code message, w)
  granted_key env claims req expires_at (respond groups) w =
      stored_key env claims req expires_at groups env.random_key w

  abbrev pub expiring_key :
      Env → Claims → CreateRequest → Option (Option ℕ) → World → Response CreatedKey × World
  expiring_key env claims req none w = (error 400 "expiresIn must be a positive Go duration", w)
  expiring_key env claims req (some expires_at) w =
      granted_key env claims req expires_at (granted_groups env claims req) w

  -- The claims of the request, none without authentication, and its body, none if it does not decode.
  unfoldable pub handle_create_api_key :
      Env → Option Claims → Option CreateRequest → World → Response CreatedKey × World
  handle_create_api_key env none body w = (error 401 "authentication required", w)
  handle_create_api_key env (some claims) none w = (error 400 "invalid request body", w)
  handle_create_api_key env (some claims) (some req) w =
      expiring_key env claims req (expiry env req.expires_in) w

  abbrev pub answered_list : Option (List Metadata) × World → Response (List Metadata) × World
  answered_list (none, w) = (error 500 "failed to list API keys", w)
  answered_list (some keys, w) = (respond keys, w)

  unfoldable pub handle_list_api_keys : Option Claims → World → Response (List Metadata) × World
  handle_list_api_keys none w = (error 401 "authentication required", w)
  handle_list_api_keys (some claims) w = answered_list (list_for_user json c claims.sub w)

  abbrev pub invalidated : Validator → String → Validator
  invalidated v hash = if str_eq hash "" then v else without v hash

  abbrev pub revoked : String → Validator → Deletion × World → Response String × Validator × World
  revoked key_id v (deleted hash, w) = (respond key_id, invalidated v hash, w)
  revoked key_id v (missing_key, w) = (error 404 "api key not found", v, w)
  revoked key_id v (access_denied, w) = (error 403 "you do not own this API key", v, w)
  revoked key_id v (delete_failed, w) = (error 404 "delete api key", v, w)

  unfoldable pub handle_revoke_api_key :
      Option Claims → String → Validator → World → Response String × Validator × World
  handle_revoke_api_key none key_id v w = (error 401 "authentication required", v, w)
  handle_revoke_api_key (some claims) key_id v w =
      if str_eq key_id ""
      then (error 400 "keyId is required", v, w)
      else revoked key_id v (delete_key json c key_id claims.sub claims.is_admin w)
