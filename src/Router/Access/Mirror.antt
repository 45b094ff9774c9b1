-- ===== src/Router/Access/Mirror.antt =====
-- userCanAccessSandbox of pkg/router/handlers.go, and its copy in
-- pkg/controller/webhook_delivery/access.go, which has the user's identifier alone.
use agenttier.Prelude.{
  String, Bool, true, false, not, ◌&&◌, ◌||◌, Option, none, some, List, [], ◌∷◌, map, ◌≡◌, refl,
  arith, str_eq, any,
}
use agenttier.Keys.Validator.{Claims}
use agenttier.Router.Access.{
  SharePermission, Sharing, Sandbox, names_user, names_group, is_shared, user_can_access_sandbox,
}
use agenttier.Webhook.Subscription as Subscription

abbrev pub identities : Option Sharing → Option (List String)
identities none = none
identities (some sharing) = some (map SharePermission.identity sharing.users)

-- What the copy reads of the sandbox.
abbrev pub as_read : Sandbox → Subscription.SandboxAccess
as_read sb = record { created_by = sb.created_by; sharing = identities sb.sharing }

abbrev listed : String → String → Bool
listed sub u = not (str_eq u "") && str_eq u sub

any-listed :
    (claims : Claims) (users : List SharePermission)
    → any (listed claims.sub) (map SharePermission.identity users) ≡ true
    → any (names_user claims) users ≡ true
any-listed claims [] is = is
any-listed claims (u ∷ users) is = ground (arith, any-listed claims users)

any-names_user :
    (claims : Claims) (users : List SharePermission)
    → claims.email ≡ ""
    → any (names_user claims) users ≡ any (listed claims.sub) (map SharePermission.identity users)
any-names_user claims [] no_email = refl
any-names_user claims (u ∷ users) no_email =
    let rest = any-names_user claims users no_email in
    rw (no_email, rest) (one (str_eq u.identity "") (str_eq u.identity claims.sub))
  where
    one :
        (empty same : Bool)
        → ((not empty && (same || empty))
            || any (listed claims.sub) (map SharePermission.identity users))
          ≡ ((not empty && same) || any (listed claims.sub) (map SharePermission.identity users))
    one empty same = ground arith

any-none :
    (claims : Claims) (groups : List SharePermission)
    → claims.groups ≡ []
    → any (names_group claims) groups ≡ false
any-none claims [] no_groups = refl
any-none claims (g ∷ groups) no_groups = rw (no_groups, any-none claims groups no_groups) refl

shared-le :
    (sharing : Option Sharing) (claims : Claims)
    → Subscription.is_shared_with (identities sharing) claims.sub ≡ true
    → is_shared sharing claims ≡ true
shared-le none claims is = cc
shared-le (some s) claims is = rw (any-listed claims s.users is) refl

shared-eq :
    (sharing : Option Sharing) (claims : Claims)
    → claims.email ≡ ""
    → claims.groups ≡ []
    → is_shared sharing claims ≡ Subscription.is_shared_with (identities sharing) claims.sub
shared-eq none claims no_email no_groups = refl
shared-eq (some s) claims no_email no_groups =
    let rest = any-names_user claims s.users no_email in
    let none_by_group = any-none claims s.groups no_groups in ground (arith, rest, none_by_group)

-- Whoever the copy lets see a sandbox's events may use the sandbox.
pub user_can_access_sandbox-le :
    (sb : Sandbox) (claims : Claims)
    → Subscription.user_can_access_sandbox (as_read sb) claims.sub ≡ true
    → user_can_access_sandbox sb claims ≡ true
unfolding user_can_access_sandbox Subscription.user_can_access_sandbox
user_can_access_sandbox-le sb claims is = ground (arith, shared-le sb.sharing claims)

-- For a caller with an identifier who is no admin, and has neither an e-mail address nor groups, the
-- router's userCanAccessSandbox and its copy in the webhook deliverer give the same answer.
pub user_can_access_sandbox-mirror :
    (sb : Sandbox) (claims : Claims)
    → claims.is_admin ≡ false
    → claims.email ≡ ""
    → claims.groups ≡ []
    → str_eq claims.sub "" ≡ false
    → user_can_access_sandbox sb claims
      ≡ Subscription.user_can_access_sandbox (as_read sb) claims.sub
unfolding user_can_access_sandbox Subscription.user_can_access_sandbox
user_can_access_sandbox-mirror sb claims plain no_email no_groups named =
    ground (arith, shared-eq sb.sharing claims no_email no_groups)
