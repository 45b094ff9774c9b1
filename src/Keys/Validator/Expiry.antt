-- ===== src/Keys/Validator/Expiry.antt =====
-- ValidateKey of pkg/router/auth/apikey.go: on what it accepts a key.
use agenttier.Prelude.{
  ℕ, ◌+◌, ◌≤◌, String, Bool, true, false, Option, none, some, ◌≡◌, refl, ap, subst, arith,
  if◌then◌else◌, ltb, str_eq, name_cases, inl, inr, Bool-cases, eq_iff,
}
use agenttier.Keys.{ApiKeyRecord}
use agenttier.Keys.Cache.{get, put}
use agenttier.Keys.Cache.Runs.{put-Below, remove-Below}
use agenttier.Keys.Validator.{
  Claims, CacheEntry, Answer, accepted, Validator, has_expired, claims_of, Readings, without,
  check_hit, check_cache, finish, after_cache, validate_key,
}
use agenttier.Webhook.Subscription.{lookup}

expired_mono : (o : Option ℕ) (a b : ℕ) → a ≤ b → has_expired o b ≡ false → has_expired o a ≡ false
expired_mono none a b h fresh = refl
expired_mono (some at) a b h fresh = ground arith

-- `Stored hash r` is that the store has answered `r` for the hash.
module _ (Stored : String → ApiKeyRecord → Type 0) where
  -- An entry keeps what a stored record says.
  abbrev pub FromStore : String → CacheEntry → Type 0
  FromStore hash e =
      (r : ApiKeyRecord) × Stored hash r × (e.claims ≡ claims_of r) × (e.expires_at ≡ r.expires_at)

  abbrev pub Honest : Validator → Type 0
  Honest v = (hash : String) (e : CacheEntry) → get v.cache hash ≡ some e → FromStore hash e

  -- The claims are those of a stored record that had not expired at the reading.
  abbrev pub Justified : String → ℕ → Answer → Type 0
  Justified hash now answer =
      (c : Claims)
      → answer ≡ accepted c
      → (r : ApiKeyRecord) × Stored hash r
        × (c ≡ claims_of r)
        × (has_expired r.expires_at now ≡ false)

  kept_by_remove :
      (same : Bool) (before : Option CacheEntry) (e : CacheEntry)
      → (if same then none else before) ≡ some e
      → before ≡ some e
  kept_by_remove true before e h = cc
  kept_by_remove false before e h = h

  without-Honest : (v : Validator) (hash : String) → Honest v → Honest (without v hash)
  unfolding get
  without-Honest v hash h q e found = h q e (
      kept_by_remove (str_eq hash q) (lookup q v.cache.items) e
        (remove-Below v.cache q hash e found))

  cached-Honest :
      (v : Validator) (hash : String) (e : CacheEntry)
      → FromStore hash e
      → Honest v
      → Honest (record v { cache = put v.cache hash e })
  unfolding get
  cached-Honest v hash e from h q e' found =
      let wrote = put-Below v.cache q hash e e' found in
      elim (name_cases hash q) [
        | inl same ↦
            let is : e ≡ e' = ground (arith, eq_iff hash q) in
            subst (λ x. FromStore q x) is (subst (λ x. FromStore x e) same from)
        | inr other ↦ h q e' (ground arith)
      ]

  hit-Justified :
      (v : Validator) (hash : String) (t : Readings) (found : Option CacheEntry)
      → ((e : CacheEntry) → found ≡ some e → FromStore hash e)
      → (c : Claims) → (check_hit v hash t.at_hit t.at_age found).0 ≡ some (accepted c)
      → (r : ApiKeyRecord) × Stored hash r
        × (c ≡ claims_of r)
        × (has_expired r.expires_at t.at_hit ≡ false)
  hit-Justified v hash t none from c is = cc
  hit-Justified v hash t (some entry) from c is =
      let (r, stored, same, expires) = from entry refl in (r, stored, ground arith, ground arith)

  finish-Justified :
      (v : Validator) (hash : String) (t : Readings) (found : Option ApiKeyRecord)
      → t.at_hit ≤ t.at_check
      → ((r : ApiKeyRecord) → found ≡ some r → Stored hash r)
      → Justified hash t.at_hit (finish v hash t.at_check t.at_put found).0
  unfolding finish
  finish-Justified v hash t none order from c is = cc
  finish-Justified v hash t (some r) order from c is = (
    r,
    from r refl,
    ground arith,
    expired_mono r.expires_at t.at_hit t.at_check order (ground arith),
  )

  finish-Honest :
      (v : Validator) (hash : String) (t : Readings) (found : Option ApiKeyRecord)
      → ((r : ApiKeyRecord) → found ≡ some r → Stored hash r)
      → Honest v
      → Honest (finish v hash t.at_check t.at_put found).1
  unfolding finish
  finish-Honest v hash t none from h = h
  finish-Honest v hash t (some r) from h = elim (Bool-cases (has_expired r.expires_at t.at_check)) [
    | inl expired ↦ rw expired h
    | inr fresh ↦ rw fresh (cached-Honest v hash _ (r, from r refl, refl, refl) h)
  ]

  hit-Honest :
      (v : Validator) (hash : String) (t : Readings) (found : Option CacheEntry)
      → Honest v
      → Honest (check_hit v hash t.at_hit t.at_age found).1
  hit-Honest v hash t none h = h
  hit-Honest v hash t (some entry) h = elim (Bool-cases (has_expired entry.expires_at t.at_hit)) [
    | inl expired ↦ rw expired (without-Honest v hash h)
    | inr fresh ↦ elim (Bool-cases (ltb t.at_age (entry.cached_at + v.cache_ttl))) [
      | inl young ↦ rw (fresh, young) h
      | inr old ↦ rw (fresh, old) (without-Honest v hash h)
    ]
  ]

  after_cache-Justified :
      (hash : String) (t : Readings) (store : String → Option ApiKeyRecord)
      → t.at_hit ≤ t.at_check
      → ((r : ApiKeyRecord) → store hash ≡ some r → Stored hash r)
      → (checked : Option Answer × Validator)
      → ((c : Claims)
          → checked.0 ≡ some (accepted c)
          → (r : ApiKeyRecord) × Stored hash r
            × (c ≡ claims_of r)
            × (has_expired r.expires_at t.at_hit ≡ false))
      → Honest checked.1
      → Justified hash t.at_hit (after_cache hash t store checked).0
        × Honest (after_cache hash t store checked).1
  after_cache-Justified hash t store order from (some answer, v) hit h =
      (λ c is. hit c (ap some is), h)
  after_cache-Justified hash t store order from (none, v) hit h = (
    finish-Justified v hash t (store hash) order from,
    finish-Honest v hash t (store hash) from h,
  )

  validate_key_lem :
      (hash_api_key : String → String) (v : Validator) (t : Readings)
      (store : String → Option ApiKeyRecord) (key : String)
      → t.at_hit ≤ t.at_check
      → ((r : ApiKeyRecord) → store (hash_api_key key) ≡ some r → Stored (hash_api_key key) r)
      → Honest v
      → Justified (hash_api_key key) t.at_hit (validate_key hash_api_key v t store key).0
        × Honest (validate_key hash_api_key v t store key).1
  unfolding validate_key check_cache
  validate_key_lem hash_api_key v t store key order from h =
      let hash = hash_api_key key in
      let found = get v.cache hash in
      after_cache-Justified hash t store order from (check_hit v hash t.at_hit t.at_age found)
        (hit-Justified v hash t found (λ e is. h hash e is)) (hit-Honest v hash t found h)

  -- Every cache entry keeps what a stored record says, if that was so before the call and what the store
  -- answers counts as stored.
  pub validate_key-Honest :
      (hash_api_key : String → String) (v : Validator) (t : Readings)
      (store : String → Option ApiKeyRecord) (key : String)
      → t.at_hit ≤ t.at_check
      → ((r : ApiKeyRecord) → store (hash_api_key key) ≡ some r → Stored (hash_api_key key) r)
      → Honest v
      → Honest (validate_key hash_api_key v t store key).1
  validate_key-Honest hash_api_key v t store key order from h =
      (validate_key_lem hash_api_key v t store key order from h).1

  -- Where what the store answers counts as stored, every cache entry keeps what a stored record of its
  -- hash says, and the clock does not run backwards during the call, ValidateKey accepts a key only
  -- with the claims of a record that was stored for its hash and had not expired when the call
  -- started, whether it was cached or not.
  pub validate_key-accepted :
      (hash_api_key : String → String) (v : Validator) (t : Readings)
      (store : String → Option ApiKeyRecord) (key : String) (c : Claims)
      → t.at_hit ≤ t.at_check
      → ((r : ApiKeyRecord) → store (hash_api_key key) ≡ some r → Stored (hash_api_key key) r)
      → Honest v
      → (validate_key hash_api_key v t store key).0 ≡ accepted c
      → (r : ApiKeyRecord) × Stored (hash_api_key key) r
        × (c ≡ claims_of r)
        × (has_expired r.expires_at t.at_hit ≡ false)
  validate_key-accepted hash_api_key v t store key c order from h is =
      (validate_key_lem hash_api_key v t store key order from h).0 c is
