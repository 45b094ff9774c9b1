-- ===== src/Keys/Handlers/Use.antt =====
-- A key from the request that makes it, through its use, to the request that revokes it:
-- pkg/router/apikey_handlers.go, pkg/apikeystore/store.go and pkg/router/auth/apikey.go together.
use agenttier.Prelude.{
  String, Bool, true, false, Option, none, some, ◌≡◌, refl, sym, ap, subst, ◌∙◌, arith, str_eq,
}
use agenttier.Keys.{ApiKeyRecord}
use agenttier.Keys.Cache.{get, remove}
use agenttier.Keys.Handlers.{
  CreateRequest, CreatedKey, respond, Env, record_of, handle_create_api_key, invalidated, revoked,
  handle_revoke_api_key,
}
use agenttier.Keys.Handlers.Scopes.{handle_create_api_key-Made}
use agenttier.Keys.Maps.{delete_at, lookup-delete_at_self}
use agenttier.Keys.Store.{
  Secret, Client, Json, Deletion, deleted, missing_key, access_denied, delete_failed, record_in,
  deletion, delete_found, delete_key, get_api_key_by_hash,
}
use agenttier.Keys.Store.Owners.{CreatedIsRead, ReadsBack, get_api_key_by_hash-create_key}
use agenttier.Keys.Validator.{
  Claims, accepted, key_not_found, Validator, Readings, has_expired, claims_of, without,
  check_cache, finish, validate_key,
}
use agenttier.Reconcile.Cleanup.{secret_name_for_hash}
use agenttier.Webhook.Subscription.{lookup}

-- A call that finds nothing cached answers by the record in the store.
validate_miss :
    (hash_api_key : String → String) (v : Validator) (t : Readings)
    (store : String → Option ApiKeyRecord) (key : String) (found : Option ApiKeyRecord)
    → get v.cache (hash_api_key key) ≡ none
    → store (hash_api_key key) ≡ found
    → (validate_key hash_api_key v t store key).0
      ≡ (finish v (hash_api_key key) t.at_check t.at_put found).0
unfolding validate_key check_cache
validate_miss hash_api_key v t store key found miss is = rw (miss, is) refl

module _ (json : Json) (c : Client json.Raw) where
  open c use {World, delete}

  abbrev pub stored_in : World → String → Option ApiKeyRecord
  stored_in w hash = (get_api_key_by_hash json c hash w).0

  -- Where a created Secret can be read and encoding/json decodes what it encoded, a key that was made
  -- is accepted by a validator that has not cached its hash, until it expires, with the identifier
  -- of the caller who made it and the sandbox and the action groups of the response.
  pub validate_key-handle_create_api_key :
      (env : Env) (claims : Claims) (body : Option CreateRequest) (w : World) (k : CreatedKey)
      (w' : World) (v : Validator) (t : Readings)
      → CreatedIsRead json c
      → ((r : ApiKeyRecord) → ReadsBack json c r)
      → handle_create_api_key json c env (some claims) body w ≡ (respond k, w')
      → get v.cache (env.hash_api_key k.key) ≡ none
      → has_expired k.expires_at t.at_check ≡ false
      → (a : Claims) × ((validate_key env.hash_api_key v t (stored_in w') k.key).0 ≡ accepted a)
        × (a.sub ≡ claims.sub)
        × (a.sandbox_id ≡ k.sandbox_id)
        × (a.action_groups ≡ k.action_groups)
  unfolding finish
  validate_key-handle_create_api_key env claims body w k w' v t reads back made miss fresh =
      let (claims', req, same, is, m) =
        handle_create_api_key-Made json c env (some claims) body w k w' made in
      let hash = env.hash_api_key k.key in
      let r = record_of env claims' req k.expires_at k.action_groups hash in
      let found = get_api_key_by_hash-create_key json c hash r w w' reads (back r) m.stored in
      (
        claims_of r,
        validate_miss env.hash_api_key v t (stored_in w') k.key (some r) miss found ∙ rw fresh refl,
        cc,
        sym m.bound,
        refl,
      )

  -- A Secret that was deleted is not found by a Get of its name in the cluster after it.
  abbrev pub DeletedIsGone : Type 0
  DeletedIsGone =
      (s : Secret json.Raw) (w w' : World) → delete s w ≡ (true, w') → (c.get s.name w').0 ≡ none

  revoked_lem :
      (key_id : String) (v : Validator) (answer : Deletion × World) (v' : Validator) (w' : World)
      → revoked json c key_id v answer ≡ (respond key_id, v', w')
      → (hash : String) × (answer ≡ (deleted hash, w')) × (v' ≡ invalidated json c v hash)
  revoked_lem key_id v (deleted hash, w) v' w' is = (hash, cc, cc)
  revoked_lem key_id v (missing_key, w) v' w' is = absurd (cc)
  revoked_lem key_id v (access_denied, w) v' w' is = absurd (cc)
  revoked_lem key_id v (delete_failed, w) v' w' is = absurd (cc)

  deleted_lem :
      (key_id user_id : String) (is_admin : Bool) (w : World)
      (answer : Option (Secret json.Raw) × World) (hash : String) (w' : World)
      → delete_found json c user_id is_admin answer ≡ (deleted hash, w')
      → (s : Secret json.Raw) × (answer.0 ≡ some s)
        × (s.key_hash ≡ hash)
        × (delete s answer.1 ≡ (true, w'))
  deleted_lem key_id user_id is_admin w (none, w1) hash w' is = absurd (cc)
  deleted_lem key_id user_id is_admin w (some s, w1) hash w' is =
      let (same, sent) = deletion_cases s.key_hash (delete s w1) (ground arith) in
      (s, refl, same, sent)
    where
      deletion_cases :
          (h : String) (d : Bool × World)
          → deletion json c h d ≡ (deleted hash, w')
          → (h ≡ hash) × (d ≡ (true, w'))
      deletion_cases h (true, w2) e = (cc, cc)
      deletion_cases h (false, w2) e = absurd (cc)

  -- What is left once the Secret of a hash is deleted and the hash is invalidated.
  refused_after :
      (hash_api_key : String → String) (key : String) (v v' : Validator) (t : Readings)
      (w w' : World) (s : Secret json.Raw)
      → DeletedIsGone
      → s.name ≡ secret_name_for_hash s.key_hash
      → str_eq s.key_hash "" ≡ false
      → hash_api_key key ≡ s.key_hash
      → v' ≡ invalidated json c v s.key_hash
      → delete s w ≡ (true, w')
      → (validate_key hash_api_key v' t (stored_in w') key).0 ≡ key_not_found
  unfolding get_api_key_by_hash get remove finish
  refused_after hash_api_key key v v' t w w' s gone name set same evicted sent =
      let named : secret_name_for_hash (hash_api_key key) ≡ s.name = rw same (sym name) in
      let unstored : stored_in w' (hash_api_key key) ≡ none =
        ap (λ n. record_in json (hash_api_key key) (c.get n w').0) named
        ∙ ap (record_in json (hash_api_key key)) (gone s w w' sent) in
      let v'_is : v' ≡ without v s.key_hash = evicted ∙ rw set refl in
      let miss : get v'.cache (hash_api_key key) ≡ none =
        ap (λ (x : Validator). get x.cache (hash_api_key key)) v'_is
        ∙ subst (λ q. lookup q (delete_at s.key_hash v.cache.items) ≡ none) (sym same)
            (lookup-delete_at_self s.key_hash v.cache.items) in
      validate_miss hash_api_key v' t (stored_in w') key none miss unstored

  revoke_cases :
      (claims : Claims) (key_id : String) (v : Validator) (w : World) (v' : Validator) (w' : World)
      → handle_revoke_api_key json c (some claims) key_id v w ≡ (respond key_id, v', w')
      → (s : Secret json.Raw) × ((c.get key_id w).0 ≡ some s)
        × (v' ≡ invalidated json c v s.key_hash)
        × (delete s (c.get key_id w).1 ≡ (true, w'))
  unfolding handle_revoke_api_key delete_key
  revoke_cases claims key_id v w v' w' is =
      let (hash, deletes, evicted) =
        revoked_lem key_id v (delete_key json c key_id claims.sub claims.is_admin w) v' w'
          (ground arith) in
      let (s, finds, holds, sent) =
        deleted_lem key_id claims.sub claims.is_admin w (c.get key_id w) hash w' deletes in
      (s, finds, evicted ∙ ap (invalidated json c v) (sym holds), sent)

  -- Where a deleted Secret can no longer be read: after a request that revokes a key, whose Secret has
  -- the name that the store gives it and holds a hash, a validator that it invalidated answers every
  -- key with that hash as not found.
  pub validate_key-handle_revoke_api_key :
      (claims : Claims) (key_id : String) (v : Validator) (w : World) (v' : Validator) (w' : World)
      (s : Secret json.Raw) (hash_api_key : String → String) (t : Readings) (key : String)
      → DeletedIsGone
      → (c.get key_id w).0 ≡ some s
      → s.name ≡ secret_name_for_hash s.key_hash
      → str_eq s.key_hash "" ≡ false
      → handle_revoke_api_key json c (some claims) key_id v w ≡ (respond key_id, v', w')
      → hash_api_key key ≡ s.key_hash
      → (validate_key hash_api_key v' t (stored_in w') key).0 ≡ key_not_found
  validate_key-handle_revoke_api_key claims key_id v w v' w' s hash_api_key t key gone has name set
        is same =
      let (s', finds, evicted, sent) = revoke_cases claims key_id v w v' w' is in
      let one : s' ≡ s = cc in
      refused_after hash_api_key key v v' t (c.get key_id w).1 w' s gone name set same
        (subst (λ (x : Secret json.Raw). v' ≡ invalidated json c v x.key_hash) one evicted)
        (subst (λ (x : Secret json.Raw). delete x (c.get key_id w).1 ≡ (true, w')) one sent)
