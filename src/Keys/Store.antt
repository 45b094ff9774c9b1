-- ===== src/Keys/Store.antt =====
-- pkg/apikeystore/store.go: API keys as Kubernetes Secrets. The API client and encoding/json are
-- interfaces; what a proof relies on of them is a named hypothesis there.
pub mod Owners
use agenttier.Prelude.{
  String, Bool, true, false, not, Option, none, some, List, [], ◌∷◌, map, if◌then◌else◌, str_eq,
  Text, codes, ℕ, ◌&&◌, ◌==◌,
}
use agenttier.Keys.{ApiKeyRecord}
use agenttier.Keys.Labels.{sanitize_label_value}
use agenttier.Reconcile.Cleanup.{secret_name_for_hash}
use agenttier.Webhook.Subscription.{lookup}

abbrev pub Labels : Type 0
Labels = List (String × Text)

-- The keys "keyHash" and "record" of the data; a missing "keyHash" reads as the empty text.
pub record Secret (Raw : Type 0) : Type 0 where
  pub name : String
  pub labels : Labels
  pub key_hash : String
  pub record_json : Option Raw

pub data Creation : Type 0 where
  created already_exists create_failed : Creation

-- The calls on the Secrets of the store's namespace. A call gives its answer and the cluster after it.
pub record Client (Raw : Type 0) : Type 1 where
  pub World : Type 0
  pub get : String → World → Option (Secret Raw) × World
  pub create : Secret Raw → World → Creation × World
  pub list : Labels → World → Option (List (Secret Raw)) × World
  pub delete : Secret Raw → World → Bool × World

-- Encoded texts, `json.Marshal`, and `json.Unmarshal` with what it has filled in and whether it
-- succeeded.
pub record Json : Type 1 where
  pub Raw : Type 0
  pub marshal : ApiKeyRecord → Option Raw
  pub unmarshal : Raw → ApiKeyRecord × Bool

abbrev pub empty_record : ApiKeyRecord
empty_record = record {
  key_hash = "";
  user_id = "";
  email = "";
  name = "";
  scopes = [];
  allowed_namespaces = [];
  sandbox_id = "";
  action_groups = [];
  created_at = 0;
  expires_at = none;
  last_used_at = none;
}

pub record Metadata : Type 0 where
  pub id : String
  pub user_id : String
  pub name : String
  pub sandbox_id : String
  pub action_groups : List String
  pub created_at : ℕ
  pub expires_at : Option ℕ
  pub last_used_at : Option ℕ

pub data Deletion : Type 0 where
  deleted : String → Deletion
  missing_key access_denied delete_failed : Deletion

abbrev pub secret_purpose_label : String
secret_purpose_label = "agenttier.io/secret-purpose"

abbrev pub user_label : String
user_label = "agenttier.io/api-key-user"

abbrev pub purpose_labels : Labels
purpose_labels = (secret_purpose_label, codes "api-key") ∷ []

abbrev pub labels_of_user : String → Labels
labels_of_user user_id =
    (secret_purpose_label, codes "api-key")
    ∷ (user_label, sanitize_label_value (codes user_id))
    ∷ []

abbrev pub text_eq : Text → Text → Bool
text_eq [] [] = true
text_eq (c ∷ s) (d ∷ t) = c == d && text_eq s t
text_eq _ _ = false

-- `secret.Labels[SecretPurposeLabel] == SecretPurpose`; a missing label reads as the empty text.
abbrev pub has_purpose : Option Text → Bool
has_purpose none = false
has_purpose (some purpose) = text_eq purpose (codes "api-key")

abbrev pub is_api_key : {Raw : Type 0} → Secret Raw → Bool
unfolding lookup
is_api_key secret = has_purpose (lookup secret_purpose_label secret.labels)

module _ (json : Json) where
  open json use {Raw, marshal, unmarshal}

  abbrev pub decoded : Option Raw → Option ApiKeyRecord
  decoded none = some empty_record
  decoded (some raw) = let (r, parsed) = unmarshal raw in if parsed then some r else none

  -- Where the error is ignored.
  abbrev pub filled_in : Option Raw → ApiKeyRecord
  filled_in none = empty_record
  filled_in (some raw) = (unmarshal raw).0

  abbrev pub metadata_of : Secret Raw → Metadata
  metadata_of secret =
      let r = filled_in secret.record_json in
      record {
        id = secret.name;
        user_id = r.user_id;
        name = r.name;
        sandbox_id = r.sandbox_id;
        action_groups = r.action_groups;
        created_at = r.created_at;
        expires_at = r.expires_at;
        last_used_at = r.last_used_at;
      }

  abbrev pub secret_of : String → ApiKeyRecord → Raw → Secret Raw
  secret_of hash r raw = record {
    name = secret_name_for_hash hash;
    labels = labels_of_user r.user_id;
    key_hash = hash;
    record_json = some raw;
  }

  abbrev pub record_in : String → Option (Secret Raw) → Option ApiKeyRecord
  record_in hash none = none
  record_in hash (some secret) =
      if str_eq secret.key_hash hash then decoded secret.record_json else none

  module _ (c : Client Raw) where
    open c use {World, get, create, list, delete}

    unfoldable pub get_api_key_by_hash : String → World → Option ApiKeyRecord × World
    get_api_key_by_hash hash w =
        let (answer, w') = get (secret_name_for_hash hash) w in (record_in hash answer, w')

    abbrev pub create_encoded : String → ApiKeyRecord → Option Raw → World → Creation × World
    create_encoded hash r none w = (create_failed, w)
    create_encoded hash r (some raw) w = create (secret_of hash r raw) w

    unfoldable pub create_key : String → ApiKeyRecord → World → Creation × World
    create_key hash r w = create_encoded hash r (marshal r) w

    abbrev pub listed : Option (List (Secret Raw)) × World → Option (List Metadata) × World
    listed (none, w) = (none, w)
    listed (some secrets, w) = (some (map metadata_of secrets), w)

    unfoldable pub list_for_user : String → World → Option (List Metadata) × World
    list_for_user user_id w = listed (list (labels_of_user user_id) w)

    unfoldable pub list_all : World → Option (List Metadata) × World
    list_all w = listed (list purpose_labels w)

    abbrev pub deletion : String → Bool × World → Deletion × World
    deletion hash (true, w) = (deleted hash, w)
    deletion hash (false, w) = (delete_failed, w)

    abbrev pub delete_found : String → Bool → Option (Secret Raw) × World → Deletion × World
    delete_found user_id is_admin (none, w) = (missing_key, w)
    delete_found user_id is_admin (some secret, w) =
        if not (is_api_key secret)
        then (missing_key, w)
        else (if not is_admin && not (str_eq (filled_in secret.record_json).user_id user_id)
            then (access_denied, w)
            else deletion secret.key_hash (delete secret w))

    unfoldable pub delete_key : String → String → Bool → World → Deletion × World
    delete_key key_id user_id is_admin w = delete_found user_id is_admin (get key_id w)
