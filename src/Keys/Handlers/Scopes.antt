-- ===== src/Keys/Handlers/Scopes.antt =====
-- handleCreateAPIKey of pkg/router/apikey_handlers.go: what a key that it makes may do.
use agenttier.Prelude.{
  String, true, false, Option, none, some, List, [], ◌∷◌, ◌≡◌, refl, ap, subst, arith,
  if◌then◌else◌, str_eq, eq_iff, any, All, is_empty, ℕ, ◌<◌, Bool-cases, name_cases, inl, inr, ◌⊎◌,
}
use agenttier.Prelude.Int.{ℤ}
use agenttier.Keys.{ApiKeyRecord}
use agenttier.Keys.Handlers.{
  valid_action_groups, CreateRequest, CreatedKey, Response, respond, error, Env, positive_duration,
  expiry, refused_group, or_default, groups_for_sandbox, granted_groups, record_of, answered_key,
  stored_key, granted_key, expiring_key, handle_create_api_key,
}
use agenttier.Keys.Store.{
  Creation, created, already_exists, create_failed, Client, Json, create_key,
}
use agenttier.Keys.Validator.{Claims}

abbrev pub IsGroup : String → Type 0
IsGroup g = (any (λ v. str_eq v g) valid_action_groups ≡ true) × (str_eq g "delete" ≡ false)

refused_group-IsGroup : (scopes : List String) → refused_group scopes ≡ none → All IsGroup scopes
refused_group-IsGroup [] is = tt
refused_group-IsGroup (scope ∷ scopes) is = elim (Bool-cases (str_eq scope "delete")) [
  | inl deletes ↦ absurd (ground arith)
  | inr other ↦ elim (Bool-cases (any (λ g. str_eq g scope) valid_action_groups)) [
    | inl valid ↦ ((valid, other), refused_group-IsGroup scopes (ground arith))
    | inr unknown ↦ absurd (ground arith)
  ]
]

-- What may be granted to the caller: groups only together with a sandbox that the caller may act on,
-- and then at least one.
abbrev pub Granted : Env → Claims → CreateRequest → List String → Type 0
Granted env claims req groups =
    All IsGroup groups
    × (((req.sandbox_id ≡ "") × (groups ≡ []))
        ⊎ ((str_eq req.sandbox_id "" ≡ false)
            × (env.access_error req.sandbox_id claims ≡ none)
            × (is_empty groups ≡ false)))

or_default_nonempty : (scopes : List String) → is_empty (or_default scopes) ≡ false
or_default_nonempty [] = refl
or_default_nonempty (s ∷ scopes) = refl

for_sandbox_lem :
    (scopes groups : List String) (denied : Option String) (refused : Option String)
    → refused_group (or_default scopes) ≡ refused
    → groups_for_sandbox scopes denied ≡ respond groups
    → All IsGroup groups × (denied ≡ none) × (is_empty groups ≡ false)
for_sandbox_lem scopes groups (some why) refused check is = cc
for_sandbox_lem scopes groups none (some why) check is = cc
for_sandbox_lem scopes groups none none check is =
    let same : or_default scopes ≡ groups = cc in
    (
      subst (All IsGroup) same (refused_group-IsGroup (or_default scopes) check),
      refl,
      subst (λ (g : List String). is_empty g ≡ false) same (or_default_nonempty scopes),
    )

granted_groups-Granted :
    (env : Env) (claims : Claims) (req : CreateRequest) (groups : List String)
    → granted_groups env claims req ≡ respond groups
    → Granted env claims req groups
unfolding granted_groups
granted_groups-Granted env claims req groups is = elim (name_cases req.sandbox_id "") [
  | inl user ↦
      let same : groups ≡ [] = no_groups req.scopes (ground (arith, eq_iff req.sandbox_id "")) in
      (rw same tt, inl (user, same))
  | inr scoped ↦
      let facts =
        for_sandbox_lem req.scopes groups (env.access_error req.sandbox_id claims)
          (refused_group (or_default req.scopes)) refl (ground arith) in
      (facts.0, inr (scoped, facts.1, facts.2))
]
  where
    no_groups :
        (scopes : List String)
        → (if is_empty scopes then respond [] else error 400 "scopes requires sandboxId")
          ≡ respond groups
        → groups ≡ []
    no_groups [] e = cc
    no_groups (s ∷ scopes) e = absurd (cc)

-- No key has an expiry that is not after the reading of the clock that it was made from.
abbrev pub Later : ℕ → Option ℕ → Type 0
Later now none = Unit
Later now (some at) = now < at

positive_duration-Later :
    (now : ℕ) (d : Option ℤ) (at : Option ℕ) → positive_duration now d ≡ some at → Later now at
positive_duration-Later now none at is = absurd (cc)
positive_duration-Later now (some d) none is = tt
positive_duration-Later now (some d) (some at) is = ground arith

expiry-Later :
    (env : Env) (expires_in : String) (at : Option ℕ)
    → expiry env expires_in ≡ some at
    → Later env.expiry_now at
expiry-Later env expires_in none is = tt
expiry-Later env expires_in (some at) is = elim (Bool-cases (str_eq expires_in "")) [
  | inl never ↦ absurd (ground arith)
  | inr given ↦
      positive_duration-Later env.expiry_now (env.parse_duration expires_in) (some at)
        (ground arith)
]

module _ (json : Json) (c : Client json.Raw) where
  open c use {World}

  -- What a success says of the request and the store.
  pub record Made (env : Env) (claims : Claims) (req : CreateRequest) (k : CreatedKey)
      (w w' : World) : Type 0 where
    pub granted : Granted env claims req k.action_groups
    pub bound : k.sandbox_id ≡ req.sandbox_id
    pub later : Later env.expiry_now k.expires_at
    pub stored :
        create_key json c
          (env.hash_api_key k.key)
          (record_of env claims req k.expires_at k.action_groups (env.hash_api_key k.key))
          w
        ≡ (created, w')

  answered_key_lem :
      (key : String) (r : ApiKeyRecord) (answer : Creation × World) (k : CreatedKey) (w' : World)
      → answered_key json c key r answer ≡ (respond k, w')
      → (answer ≡ (created, w'))
        × (k.key ≡ key)
        × (k.sandbox_id ≡ r.sandbox_id)
        × (k.action_groups ≡ r.action_groups)
        × (k.expires_at ≡ r.expires_at)
  answered_key_lem key r (created, w) k w' is =
      (ap (λ (x : Response CreatedKey × World). (created, x.1)) is, cc, cc, cc, cc)
  answered_key_lem key r (already_exists, w) k w' is = absurd (cc)
  answered_key_lem key r (create_failed, w) k w' is = absurd (cc)

  stored_key_lem :
      (env : Env) (claims : Claims) (req : CreateRequest) (at : Option ℕ) (groups : List String)
      (drawn : Option String) (w : World) (k : CreatedKey) (w' : World)
      → Later env.expiry_now at
      → Granted env claims req groups
      → stored_key json c env claims req at groups drawn w ≡ (respond k, w')
      → Made env claims req k w w'
  stored_key_lem env claims req at groups none w k w' later granted is = absurd (cc)
  stored_key_lem env claims req at groups (some key) w k w' later granted is =
      let hash = env.hash_api_key key in
      let r = record_of env claims req at groups hash in
      let (made, keys, boxes, gs, ats) =
        answered_key_lem key r (create_key json c hash r w) k w' is in
      record {
        granted = rw gs granted;
        bound = boxes;
        later = rw ats later;
        stored = rw (keys, gs, ats) made;
      }

  granted_key_lem :
      (env : Env) (claims : Claims) (req : CreateRequest) (at : Option ℕ)
      (groups : Response (List String)) (w : World) (k : CreatedKey) (w' : World)
      → Later env.expiry_now at
      → granted_groups env claims req ≡ groups
      → granted_key json c env claims req at groups w ≡ (respond k, w')
      → Made env claims req k w w'
  granted_key_lem env claims req at (error code why) w k w' later grants is = absurd (cc)
  granted_key_lem env claims req at (respond groups) w k w' later grants is =
      stored_key_lem env claims req at groups env.random_key w k w' later
        (granted_groups-Granted env claims req groups grants) is

  expiring_key_lem :
      (env : Env) (claims : Claims) (req : CreateRequest) (at : Option (Option ℕ)) (w : World)
      (k : CreatedKey) (w' : World)
      → expiry env req.expires_in ≡ at
      → expiring_key json c env claims req at w ≡ (respond k, w')
      → Made env claims req k w w'
  expiring_key_lem env claims req none w k w' expires is = absurd (cc)
  expiring_key_lem env claims req (some at) w k w' expires is =
      granted_key_lem env claims req at (granted_groups env claims req) w k w'
        (expiry-Later env req.expires_in at expires) refl is

  -- A key is made only for a caller with claims and a body that decodes. It has action groups only
  -- together with a sandbox that the caller may act on, then at least one, each a known one and none
  -- of them "delete"; its expiry, if it has one, is after the reading of the clock that it was made
  -- from; and it is stored under its hash with the caller's identifier, sandbox, groups and expiry.
  pub handle_create_api_key-Made :
      (env : Env) (auth : Option Claims) (body : Option CreateRequest) (w : World) (k : CreatedKey)
      (w' : World)
      → handle_create_api_key json c env auth body w ≡ (respond k, w')
      → (claims : Claims) × (req : CreateRequest) × (auth ≡ some claims)
        × (body ≡ some req)
        × Made env claims req k w w'
  unfolding handle_create_api_key
  handle_create_api_key-Made env none body w k w' is = absurd (cc)
  handle_create_api_key-Made env (some claims) none w k w' is = absurd (cc)
  handle_create_api_key-Made env (some claims) (some req) w k w' is = (
    claims,
    req,
    refl,
    refl,
    expiring_key_lem env claims req (expiry env req.expires_in) w k w' refl is,
  )
