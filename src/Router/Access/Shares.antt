-- ===== src/Router/Access/Shares.antt =====
-- Sharing a sandbox in pkg/router/handlers.go: who may use it afterwards.
use agenttier.Prelude.{
  String, Bool, true, false, not, ◌&&◌, ◌||◌, Option, none, some, List, [], ◌∷◌, ◌≡◌, refl, sym, ap,
  subst, arith, str_eq, any, Bool-cases, inl, inr, eq_iff, eq_refl, name_cases, ◌⊎◌, ℕ,
}
use agenttier.Keys.Validator.{Claims}
use agenttier.Router.Access.{
  SharePermission, Sandbox, is_owner, names_user, user_can_access_sandbox,
  get_sandbox_with_auth_check, upsert_share_permission, ShareRequest, refused, written, or_empty,
  with_permission, saved, share, handle_share_sandbox,
}

any-upsert :
    (perm : SharePermission) (perms : List SharePermission) (test : String → Bool)
    → test perm.identity ≡ true
    → any (λ (p : SharePermission). test p.identity) (upsert_share_permission perm perms) ≡ true
unfolding upsert_share_permission
any-upsert perm [] test yes_test = rw yes_test refl
any-upsert perm (p ∷ perms) test yes_test = elim (name_cases p.identity perm.identity) [
  | inl same ↦ ground (arith, eq_iff p.identity perm.identity)
  | inr other ↦ rw other (ground (arith, any-upsert perm perms test yes_test))
]

pub saved_lem : (update : Bool) (sb sb' : Sandbox) → saved update sb ≡ written sb' → sb ≡ sb'
saved_lem true sb sb' is = cc
saved_lem false sb sb' is = absurd (cc)

-- The caller may change how the sandbox is shared.
abbrev pub MayShare : Option Sandbox → Claims → Sandbox → Type 0
MayShare resolved caller sb =
    (resolved ≡ some sb) × ((caller.is_admin ≡ true) ⊎ (is_owner sb.created_by caller.sub ≡ true))

pub checked :
    (resolved : Option Sandbox) (caller : Claims) (sb : Sandbox)
    → get_sandbox_with_auth_check resolved caller ≡ some sb
    → MayShare resolved caller sb
checked none caller sb is = cc
checked (some found) caller sb is = elim (Bool-cases caller.is_admin) [
  | inl admin ↦ (rw admin at is, inl admin)
  | inr plain ↦ elim (Bool-cases (is_owner found.created_by caller.sub)) [
    | inl own ↦
        let same : ◌≡◌ {A = Option Sandbox} (some found) (some sb) = rw (plain, own) at is in
        (same, inr (subst (λ (x : Option Sandbox). owned_by x ≡ true) same own))
    | inr foreign ↦ absurd (clash (rw (plain, foreign) at is))
  ]
]
  where
    owned_by : Option Sandbox → Bool
    owned_by none = false
    owned_by (some x) = is_owner x.created_by caller.sub

    clash : ◌≡◌ {A = Option Sandbox} none (some sb) → ⊥
    clash e = cc

-- What a share does for the one it names.
abbrev Admits : ShareRequest → Sandbox → Type 0
Admits req sb' =
    (user : Claims)
    → (str_eq req.kind "group" ≡ false
        → user.sub ≡ req.identity
        → user_can_access_sandbox sb' user ≡ true)
      × (str_eq req.kind "group" ≡ true
          → any (λ cg. str_eq req.identity cg) user.groups ≡ true
          → user_can_access_sandbox sb' user ≡ true)

user_shared :
    (user : Claims) (req : ShareRequest) (perms : List SharePermission)
    → str_eq req.identity "" ≡ false
    → user.sub ≡ req.identity
    → any
        (names_user user)
        (upsert_share_permission (record { identity = req.identity; level = req.level }) perms)
      ≡ true
user_shared user req perms named same =
    any-upsert (record { identity = req.identity; level = req.level }) perms
      (λ i. not (str_eq i "") && (str_eq i user.sub || str_eq i user.email))
      (rw (named, same, eq_refl req.identity) refl)

shared-Admits :
    (req : ShareRequest) (sb : Sandbox)
    → str_eq req.identity "" ≡ false
    → Admits req (record sb { sharing = some (with_permission req (or_empty sb.sharing)) })
unfolding user_can_access_sandbox
shared-Admits req sb named user = (
  λ single same.
      let shares = user_shared user req (or_empty sb.sharing).users named same in
      ground (arith, single, shares),
  λ group member.
      let shares =
        any-upsert (record { identity = req.identity; level = req.level })
          (or_empty sb.sharing).groups (λ i. any (λ cg. str_eq i cg) user.groups) member in
      ground (arith, group, shares),
)

share-Admits :
    (update : Bool) (req : ShareRequest) (resolved : Option Sandbox) (caller : Claims)
    (found : Option Sandbox) (sb' : Sandbox)
    → str_eq req.identity "" ≡ false
    → get_sandbox_with_auth_check resolved caller ≡ found
    → share update req found ≡ written sb'
    → Admits req sb'
      × ((sb : Sandbox) × MayShare resolved caller sb × (sb'.created_by ≡ sb.created_by))
share-Admits update req resolved caller none sb' named auth is = absurd (cc)
share-Admits update req resolved caller (some sb) sb' named auth is =
    let shared : Sandbox = record sb {
      sharing = some (with_permission req (or_empty sb.sharing));
    } in
    let same : shared ≡ sb' = saved_lem update shared sb' is in
    (
      subst (Admits req) same (shared-Admits req sb named),
      (sb, checked resolved caller sb auth, ap Sandbox.created_by (sym same)),
    )

share_lem :
    (caller : Claims) (req : ShareRequest) (resolved : Option Sandbox) (update : Bool)
    (sb' : Sandbox)
    → handle_share_sandbox (some caller) (some req) resolved update ≡ written sb'
    → Admits req sb'
      × ((sb : Sandbox) × MayShare resolved caller sb × (sb'.created_by ≡ sb.created_by))
unfolding handle_share_sandbox
share_lem caller req resolved update sb' is = elim (Bool-cases (str_eq req.identity "")) [
  | inl empty ↦ absurd (no_write (rw empty at is))
  | inr named ↦
      elim (Bool-cases (not (str_eq req.level "viewer") && not (str_eq req.level "collaborator"))) [
        | inl unknown ↦ absurd (no_write (rw (named, unknown) at is))
        | inr known ↦
            share-Admits update req resolved caller (get_sandbox_with_auth_check resolved caller)
              sb' named refl (rw (named, known) at is)
      ]
]
  where
    no_write : {status : ℕ} → refused status ≡ written sb' → ⊥
    no_write e = cc

-- A share with a user is written only for an owner of the sandbox or an admin, leaves the owner as it is,
-- and lets whoever has the identity of the request as his identifier use the sandbox.
pub handle_share_sandbox-user_can_access_sandbox :
    (caller : Claims) (req : ShareRequest) (resolved : Option Sandbox) (update : Bool)
    (sb' : Sandbox) (user : Claims)
    → str_eq req.kind "group" ≡ false
    → user.sub ≡ req.identity
    → handle_share_sandbox (some caller) (some req) resolved update ≡ written sb'
    → (user_can_access_sandbox sb' user ≡ true)
      × ((sb : Sandbox) × MayShare resolved caller sb × (sb'.created_by ≡ sb.created_by))
handle_share_sandbox-user_can_access_sandbox caller req resolved update sb' user single same is =
    let (admits, rightful) = share_lem caller req resolved update sb' is in
    ((admits user).0 single same, rightful)

-- A share with a group lets everyone in it use the sandbox.
pub handle_share_sandbox-group_can_access_sandbox :
    (caller : Claims) (req : ShareRequest) (resolved : Option Sandbox) (update : Bool)
    (sb' : Sandbox) (user : Claims)
    → str_eq req.kind "group" ≡ true
    → any (λ cg. str_eq req.identity cg) user.groups ≡ true
    → handle_share_sandbox (some caller) (some req) resolved update ≡ written sb'
    → user_can_access_sandbox sb' user ≡ true
handle_share_sandbox-group_can_access_sandbox caller req resolved update sb' user group member is =
    ((share_lem caller req resolved update sb' is).0 user).1 group member
