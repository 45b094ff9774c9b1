-- ===== src/Keys/Validator.antt =====
-- APIKeyValidator of pkg/router/auth/apikey.go. The hash, the store and the clock's readings are
-- arguments. A call that misses the cache waits for the store, and other calls run meanwhile: what it
-- does before and after the wait are two functions.
pub mod Expiry
pub mod Requests
pub mod Gone
pub mod Revocation
use agenttier.Prelude.{
  ℕ, ◌+◌, String, Bool, false, Option, none, some, List, [], if◌then◌else◌, ltb,
}
use agenttier.Keys.{ApiKeyRecord}
use agenttier.Keys.Cache.{LruCache, new_lru_cache, get, put, remove}

pub record Claims : Type 0 where
  pub sub : String
  pub email : String
  pub name : String
  pub groups : List String
  pub is_admin : Bool
  pub sandbox_id : String
  pub action_groups : List String

pub record CacheEntry : Type 0 where
  pub claims : Claims
  pub cached_at : ℕ
  pub expires_at : Option ℕ

pub data Answer : Type 0 where
  accepted : Claims → Answer
  key_not_found key_expired : Answer

pub record Validator : Type 0 where
  pub cache : LruCache CacheEntry
  pub cache_ttl : ℕ

unfoldable pub new_api_key_validator : ℕ → ℕ → Validator
new_api_key_validator cache_size cache_ttl = record {
  cache = new_lru_cache cache_size;
  cache_ttl = cache_ttl;
}

-- `expiresAt != nil && now.After(*expiresAt)`
abbrev pub has_expired : Option ℕ → ℕ → Bool
has_expired none now = false
has_expired (some at) now = ltb at now

abbrev pub claims_of : ApiKeyRecord → Claims
claims_of r = record {
  sub = r.user_id;
  email = r.email;
  name = r.name;
  groups = [];
  is_admin = false;
  sandbox_id = r.sandbox_id;
  action_groups = r.action_groups;
}

-- The readings of the clock that one call takes, in the order in which it takes them.
pub record Readings : Type 0 where
  pub at_hit : ℕ
  pub at_age : ℕ
  pub at_check : ℕ
  pub at_put : ℕ

abbrev pub without : Validator → String → Validator
without v hash = record v { cache = remove v.cache hash }

-- What is cached, if the call is answered by it, and the cache then.
abbrev pub check_hit : Validator → String → ℕ → ℕ → Option CacheEntry → Option Answer × Validator
check_hit v hash at_hit at_age none = (none, v)
check_hit v hash at_hit at_age (some entry) =
    if has_expired entry.expires_at at_hit
    then (some key_expired, without v hash)
    else (if ltb at_age (entry.cached_at + v.cache_ttl)
        then (some (accepted entry.claims), v)
        else (none, without v hash))

unfoldable pub check_cache : Validator → String → ℕ → ℕ → Option Answer × Validator
check_cache v hash at_hit at_age = check_hit v hash at_hit at_age (get v.cache hash)

-- The rest of the call, on the store's answer.
unfoldable pub finish : Validator → String → ℕ → ℕ → Option ApiKeyRecord → Answer × Validator
finish v hash at_check at_put none = (key_not_found, v)
finish v hash at_check at_put (some r) =
    if has_expired r.expires_at at_check then (key_expired, v) else (
      accepted (claims_of r),
      record v {
        cache =
            put v.cache hash
              (record { claims = claims_of r; cached_at = at_put; expires_at = r.expires_at });
      },
    )

abbrev pub after_cache :
    String
    → Readings
    → (String → Option ApiKeyRecord)
    → Option Answer × Validator
    → Answer × Validator
after_cache hash t store (some answer, v) = (answer, v)
after_cache hash t store (none, v) = finish v hash t.at_check t.at_put (store hash)

module _ (hash_api_key : String → String) where
  unfoldable pub validate_key :
      Validator → Readings → (String → Option ApiKeyRecord) → String → Answer × Validator
  validate_key v t store key =
      let hash = hash_api_key key in after_cache hash t store (check_cache v hash t.at_hit t.at_age)

  unfoldable pub invalidate : Validator → String → Validator
  invalidate v key = without v (hash_api_key key)
