-- ===== src/Keys/Tests.antt =====
-- The theorems on API keys at concrete inputs.
use agenttier.Prelude.{
  ℕ, ◌+◌, ◌≤◌, ◌<◌, String, false, Option, none, some, List, [], ◌∷◌, ◌≡◌, ◌≢◌, refl, ap, subst,
  arith, if◌then◌else◌, str_eq, Bool-cases, inl, inr, length,
}
use agenttier.Keys.{ApiKeyRecord}
use agenttier.Keys.Cache.{new_lru_cache, get}
use agenttier.Keys.Cache.Runs.{
  Call, put_call, remove_call, run as run_calls, run-new_lru_cache-IsValid,
}
use agenttier.Keys.Cache.Valid.{IsValid, room}
use agenttier.Keys.Validator.{
  CacheEntry, accepted, Validator, Readings, has_expired, claims_of, check_cache,
  new_api_key_validator, validate_key,
}
use agenttier.Keys.Validator.Expiry.{Honest, validate_key-accepted}
use agenttier.Keys.Validator.Requests.{
  Front, pass, begin, go_on, write, invalidate_hash, step, run, accepts,
}
use agenttier.Keys.Validator.Revocation.{
  accepts-run-deleted, accepts-run-invalidated, accepts-late_put,
}
use agenttier.Webhook.Subscription.{lookup}

-- A cache with room for two, and three keys.
abbrev calls : List (Call ℕ)
calls = put_call "a" 1 ∷ put_call "b" 2 ∷ remove_call "a" ∷ put_call "c" 3 ∷ []

run-new_lru_cache-IsValid_example :
    IsValid (run_calls calls (new_lru_cache 2))
    × (length (run_calls calls (new_lru_cache 2)).order ≤ room 2)
run-new_lru_cache-IsValid_example = run-new_lru_cache-IsValid 2 calls

-- A key of ada that expires at 100, cached at 10 and kept for 30.
abbrev ada_key : ApiKeyRecord
ada_key = record {
  key_hash = "h";
  user_id = "ada";
  email = "ada@example.org";
  name = "laptop";
  scopes = [];
  allowed_namespaces = [];
  sandbox_id = "";
  action_groups = [];
  created_at = 0;
  expires_at = some 100;
  last_used_at = none;
}

abbrev cached : Validator
cached = record {
  cache = record {
    max_size = 10;
    items =
        ("h", record { claims = claims_of ada_key; cached_at = 10; expires_at = some 100 }) ∷ [];
    order = "h" ∷ [];
  };
  cache_ttl = 30;
}

abbrev ada_store : String → Option ApiKeyRecord
ada_store hash = if str_eq hash "h" then some ada_key else none

abbrev Known : String → ApiKeyRecord → Type 0
Known hash r = r ≡ ada_key

abbrev at_20 : Readings
at_20 = record { at_hit = 20; at_age = 20; at_check = 21; at_put = 22 }

cached-Honest : Honest Known cached
unfolding get lookup
cached-Honest hash e found = elim (Bool-cases (str_eq "h" hash)) [
  | inl same ↦
      let is : e ≡ record { claims = claims_of ada_key; cached_at = 10; expires_at = some 100 } =
        found_is (rw same at found) in
      (ada_key, refl, ap CacheEntry.claims is, ap CacheEntry.expires_at is)
  | inr other ↦ absurd (none_found (rw other at found))
]
  where
    found_is :
        some (record { claims = claims_of ada_key; cached_at = 10; expires_at = some 100 }) ≡ some e
        → e ≡ record { claims = claims_of ada_key; cached_at = 10; expires_at = some 100 }
    found_is is = cc

    none_found : ◌≡◌ {A = Option CacheEntry} none (some e) → ⊥
    none_found is = cc

cache_hit :
    (validate_key (λ key. "h") cached at_20 ada_store "atk_1").0 ≡ accepted (claims_of ada_key)
unfolding validate_key check_cache get lookup
cache_hit = refl

validate_key-accepted_example :
    (r : ApiKeyRecord) × Known "h" r
    × (claims_of ada_key ≡ claims_of r)
    × (has_expired r.expires_at 20 ≡ false)
validate_key-accepted_example =
    validate_key-accepted Known (λ key. "h") cached at_20 ada_store "atk_1" (claims_of ada_key)
      (omega arith) (λ r is. only r is) cached-Honest cache_hit
  where
    only : (r : ApiKeyRecord) → ada_store "h" ≡ some r → r ≡ ada_key
    only r is = cc

-- Ada's key is cached when its record is deleted.
abbrev front : Front
front = record { validator = cached; now = 20; store = ada_store; waiting = [] }

abbrev deleted_front : Front
deleted_front = run (pass 5 ∷ []) (step (write "h" none) front)

found_cached : (e : CacheEntry) → get cached.cache "h" ≡ some e → e.cached_at ≤ 20
unfolding get lookup
found_cached e is = subst (λ (x : CacheEntry). x.cached_at ≤ 20) (some_is is) (omega arith)
  where
    some_is :
        some (record { claims = claims_of ada_key; cached_at = 10; expires_at = some 100 }) ≡ some e
        → record { claims = claims_of ada_key; cached_at = 10; expires_at = some 100 } ≡ e
    some_is h = cc

still_accepted : accepts (begin "h") deleted_front ≡ some "h"
unfolding accepts run step check_cache get lookup
still_accepted = refl

accepts-run-deleted_example : deleted_front.now < 20 + 30
accepts-run-deleted_example =
    accepts-run-deleted "h" front (pass 5 ∷ []) (begin "h") tt found_cached (tt, tt) still_accepted

accepts-run-invalidated_example :
    accepts
      (begin "h")
      (run (pass 5 ∷ []) (step (invalidate_hash "h") (step (write "h" none) front)))
    ≢ some "h"
accepts-run-invalidated_example =
    accepts-run-invalidated "h" front (pass 5 ∷ []) (begin "h") tt (tt, tt)

no_entry : get (new_api_key_validator 10 30).cache "h" ≡ none
unfolding get lookup new_api_key_validator new_lru_cache
no_entry = refl

positive_ttl : 0 < (new_api_key_validator 10 30).cache_ttl
unfolding new_api_key_validator
positive_ttl = omega arith

accepts-late_put_example :
    accepts (begin "h") (
      run (begin "h" ∷ write "h" none ∷ invalidate_hash "h" ∷ go_on 0 ∷ []) (record {
        validator = new_api_key_validator 10 30;
        now = 20;
        store = ada_store;
        waiting = [];
      }))
    ≡ some "h"
accepts-late_put_example =
    accepts-late_put "h" (new_api_key_validator 10 30) 20 ada_store ada_key no_entry refl refl
      positive_ttl
