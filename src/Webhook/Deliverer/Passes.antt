-- ===== src/Webhook/Deliverer/Passes.antt =====
-- One pass of the delivery loop, and what it hands to whom.
use agenttier.Prelude.{
  String, Bool, true, false, not, ◌&&◌, Option, none, some, List, [], ◌∷◌, map, ◌≡◌, ◌≢◌, refl, sym,
  subst, if◌then◌else◌, ap, ◌⊎◌, inl, inr, arith, eq_iff, str_eq, keep, In, Bool-cases, name_cases,
  any,
}
use agenttier.Webhook.Subscription.{
  Subscription, SandboxAccess, matches, webhook_type_for_reason, user_can_access_sandbox,
  is_shared_with, can_access_sandbox, lookup,
}
use agenttier.Webhook.Events.{Event}
use agenttier.Webhook.Deliverer.{receives, recipients, PassEnv}

-- Why a subscription may receive an event: it is enabled and asks for the type, its filters on sandbox
-- and namespace fit, its owner may see the sandbox, and there is a secret to sign with.
pub record Entitled (access : Option SandboxAccess) (secrets : List (String × String)) (evt : Event)
    (type : String) (s : Subscription) : Type 0 where
  pub enabled : s.disabled ≡ false
  pub asked : In type s.event_types
  pub sandbox : (s.sandbox_id ≡ "") ⊎ (s.sandbox_id ≡ evt.name)
  pub namespace : (s.namespace ≡ "") ⊎ (s.namespace ≡ evt.namespace)
  pub allowed :
      (s.is_admin ≡ true)
      ⊎ ((a : SandboxAccess) × (access ≡ some a)
          × (s.user_id ≢ "")
          × ((a.created_by ≡ some s.user_id)
              ⊎ ((users : List String) × (a.sharing ≡ some users) × In s.user_id users)))
  pub signed : (k : String) × (lookup s.id secrets ≡ some k) × (k ≢ "")

any-In : (xs : List String) (v : String) → any (λ x. str_eq x v) xs ≡ true → In v xs
any-In [] v h = cc
any-In (x ∷ xs) v h = elim (Bool-cases (str_eq x v)) [
  | inl same ↦ inl (sym ((eq_iff x v).0 same))
  | inr other ↦ inr (any-In xs v (ground arith))
]

shared-In :
    (xs : List String) (v : String) → any (λ x. not (str_eq x "") && str_eq x v) xs ≡ true → In v xs
shared-In [] v h = cc
shared-In (x ∷ xs) v h = elim (Bool-cases (str_eq x v)) [
  | inl same ↦ inl (sym ((eq_iff x v).0 same))
  | inr other ↦ inr (shared-In xs v (ground arith))
]

filter_fits :
    (filter value : String)
    → not (str_eq filter "") && not (str_eq filter value) ≡ false
    → (filter ≡ "") ⊎ (filter ≡ value)
filter_fits filter value h = elim (name_cases filter "") [
  | inl unset ↦ inl unset
  | inr set ↦ inr (ground (arith, eq_iff filter value))
]

-- The rights of a subscription that passes the access check.
abbrev Allowed : Option SandboxAccess → Subscription → Type 0
Allowed access s =
    (s.is_admin ≡ true)
    ⊎ ((a : SandboxAccess) × (access ≡ some a)
        × (s.user_id ≢ "")
        × ((a.created_by ≡ some s.user_id)
            ⊎ ((users : List String) × (a.sharing ≡ some users) × In s.user_id users)))

owner_or_shared :
    (a : SandboxAccess) (created : Option String) (sharing : Option (List String)) (user : String)
    → a.created_by ≡ created
    → a.sharing ≡ sharing
    → user_can_access_sandbox a user ≡ true
    → (user ≢ "")
      × ((created ≡ some user) ⊎ ((users : List String) × (sharing ≡ some users) × In user users))
unfolding user_can_access_sandbox
owner_or_shared a created sharing user c s h = elim (name_cases user "") [
  | inl unset ↦ absurd (ground (arith, eq_iff user ""))
  | inr set ↦ (ground (arith, eq_iff user ""), right created sharing c s)
]
  where
    shared :
        (sharing : Option (List String))
        → a.sharing ≡ sharing
        → is_shared_with a.sharing user ≡ true
        → (users : List String) × (sharing ≡ some users) × In user users
    shared none s k = absurd (ground arith)
    shared (some users) s k = (users, refl, shared-In users user (rw s at k))

    right :
        (created : Option String) (sharing : Option (List String))
        → a.created_by ≡ created
        → a.sharing ≡ sharing
        → (created ≡ some user) ⊎ ((users : List String) × (sharing ≡ some users) × In user users)
    right none sharing c s = inr (shared sharing s (ground (arith, eq_iff user "")))
    right (some sub) sharing c s = elim (name_cases sub user) [
      | inl same ↦ inl (ap some same)
      | inr other ↦ inr (shared sharing s (ground (arith, eq_iff user "")))
    ]

access_Allowed :
    (access : Option SandboxAccess) (s : Subscription)
    → can_access_sandbox s access ≡ true
    → Allowed access s
unfolding can_access_sandbox
access_Allowed none s h = inl h
access_Allowed (some a) s h = elim (Bool-cases s.is_admin) [
  | inl admin ↦ inl admin
  | inr user ↦
      let (named, rights) =
        owner_or_shared a a.created_by a.sharing s.user_id refl refl (ground arith) in
      inr (a, refl, named, rights)
]

signed_with :
    (found : Option String)
    → elim found [ none ↦ false | some secret ↦ not (str_eq secret "") ] ≡ true
    → (k : String) × (found ≡ some k) × (k ≢ "")
signed_with none h = absurd (ground arith)
signed_with (some k) h = (k, refl, ground (arith, eq_iff k ""))

matches_parts :
    (s : Subscription) (type ns name : String)
    → matches s type ns name ≡ true
    → (s.disabled ≡ false)
      × (any (λ t. str_eq t type) s.event_types ≡ true)
      × ((not (str_eq s.sandbox_id "") && not (str_eq s.sandbox_id name)) ≡ false)
      × ((not (str_eq s.namespace "") && not (str_eq s.namespace ns)) ≡ false)
unfolding matches
matches_parts s type ns name h = ground arith

receives-Entitled :
    (access : Option SandboxAccess) (secrets : List (String × String)) (evt : Event) (type : String)
    (s : Subscription)
    → receives access secrets evt type s ≡ true
    → Entitled access secrets evt type s
unfolding receives
receives-Entitled access secrets evt type s h =
    let (on, asked, sandbox, ns) = matches_parts s type evt.namespace evt.name (ground arith) in
    record {
      enabled = on;
      asked = any-In s.event_types type asked;
      sandbox = filter_fits s.sandbox_id evt.name sandbox;
      namespace = filter_fits s.namespace evt.namespace ns;
      allowed = access_Allowed access s (ground arith);
      signed = signed_with (lookup s.id secrets) (ground arith);
    }

In-ids :
    (test : Subscription → Bool) (subs : List Subscription) (id : String)
    → In id (map (λ (s : Subscription). s.id) (keep test subs))
    → (s : Subscription) × In s subs × (test s ≡ true) × (s.id ≡ id)
In-ids test [] id m = absurd m
In-ids test (s ∷ subs) id m = elim (Bool-cases (test s)) [
  | inl pass ↦
      elim (subst
        (λ b.
          In id
            (map (λ (s : Subscription). s.id) (if b then s ∷ keep test subs else keep test subs)))
        pass m) [
          | inl same ↦ (s, inl refl, pass, sym same)
          | inr later ↦ let (t, here, ok, at) = In-ids test subs id later in (t, inr here, ok, at)
        ]
  | inr miss ↦
      let (t, here, ok, at) = In-ids test subs id (
        subst
          (λ b.
            In id
              (map (λ (s : Subscription). s.id) (if b then s ∷ keep test subs else keep test subs)))
          miss m) in
      (t, inr here, ok, at)
]

-- Why a pass hands an event to the subscription of an id.
abbrev pub Delivers : PassEnv → List Subscription → List (String × String) → Event → String → Type 0
Delivers env subs secrets evt id =
    (type : String) × (webhook_type_for_reason evt.reason ≡ some type)
    × (s : Subscription) × In s subs
    × (s.id ≡ id)
    × Entitled (env.access evt) secrets evt type s

pub recipients-Delivers :
    (env : PassEnv) (subs : List Subscription) (secrets : List (String × String)) (evt : Event)
    (id : String)
    → In id (recipients env.access subs secrets evt)
    → Delivers env subs secrets evt id
unfolding recipients
recipients-Delivers env subs secrets evt id = by_type (webhook_type_for_reason evt.reason) refl
  where
    by_type :
        (found : Option String)
        → webhook_type_for_reason evt.reason ≡ found
        → In id (elim found [
          | none ↦ []
          | some type ↦
              map
                (λ (s : Subscription). s.id)
                (keep (λ s. receives (env.access evt) secrets evt type s) subs)
        ])
        → Delivers env subs secrets evt id
    by_type none e m = absurd m
    by_type (some type) e m =
        let (s, here, passes, at) =
          In-ids (λ s. receives (env.access evt) secrets evt type s) subs id m in
        (type, e, s, here, at, receives-Entitled (env.access evt) secrets evt type s passes)
