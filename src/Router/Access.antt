-- ===== src/Router/Access.antt =====
-- pkg/router/handlers.go: who may use a sandbox, and how sharing it with users and groups changes that.
pub mod Shares
pub mod Revoked
pub mod Mirror
mod Tests
use agenttier.Prelude.{
  String, Bool, true, false, not, ◌&&◌, ◌||◌, Option, none, some, List, [], ◌∷◌, ◌++◌,
  if◌then◌else◌, str_eq, any, ℕ, suc, zero,
}
use agenttier.Keys.Validator.{Claims}

pub record SharePermission : Type 0 where
  pub identity : String
  pub level : String

-- The users and groups of the SharingSpec.
pub record Sharing : Type 0 where
  pub users : List SharePermission
  pub groups : List SharePermission

pub record Sandbox : Type 0 where
  pub name : String
  pub created_by : Option String
  pub sharing : Option Sharing

abbrev pub is_owner : Option String → String → Bool
is_owner none sub = false
is_owner (some creator) sub = str_eq creator sub

abbrev pub names_user : Claims → SharePermission → Bool
names_user claims u =
    not (str_eq u.identity "") && (str_eq u.identity claims.sub || str_eq u.identity claims.email)

abbrev pub names_group : Claims → SharePermission → Bool
names_group claims g = any (λ cg. str_eq g.identity cg) claims.groups

abbrev pub is_shared : Option Sharing → Claims → Bool
is_shared none claims = false
is_shared (some sharing) claims =
    any (names_user claims) sharing.users || any (names_group claims) sharing.groups

-- For a request with claims; one without them has no access.
unfoldable pub user_can_access_sandbox : Sandbox → Claims → Bool
user_can_access_sandbox sb claims =
    if claims.is_admin
    then true
    else (if is_owner sb.created_by claims.sub then true else is_shared sb.sharing claims)

-- resolveSandbox without a hint: the answer of the Get in the primary namespace, and that of the List,
-- none if it fails.
abbrev pub matching : String → List Sandbox → List Sandbox
matching name [] = []
matching name (sb ∷ list) =
    let rest = matching name list in if str_eq sb.name name then sb ∷ rest else rest

abbrev pub only_one : List Sandbox → Option Sandbox
only_one [] = none
only_one (sb ∷ []) = some sb
only_one (sb ∷ other ∷ rest) = none

unfoldable pub resolve_sandbox : Option Sandbox → Option (List Sandbox) → String → Option Sandbox
resolve_sandbox (some sb) listed name = some sb
resolve_sandbox none none name = none
resolve_sandbox none (some list) name = only_one (matching name list)

-- getSandboxWithAuthCheck and getSandboxForRead, on what resolveSandbox found.
abbrev pub get_sandbox_with_auth_check : Option Sandbox → Claims → Option Sandbox
get_sandbox_with_auth_check none claims = none
get_sandbox_with_auth_check (some sb) claims =
    if not claims.is_admin && not (is_owner sb.created_by claims.sub) then none else some sb

abbrev pub get_sandbox_for_read : Option Sandbox → Claims → Option Sandbox
get_sandbox_for_read none claims = none
get_sandbox_for_read (some sb) claims = if user_can_access_sandbox sb claims then some sb else none

unfoldable pub upsert_share_permission :
    SharePermission → List SharePermission → List SharePermission
upsert_share_permission perm [] = perm ∷ []
upsert_share_permission perm (p ∷ perms) =
    let rest = upsert_share_permission perm perms in
    if str_eq p.identity perm.identity then record p { level = perm.level } ∷ perms else p ∷ rest

unfoldable pub remove_share_permission : String → List SharePermission → List SharePermission
remove_share_permission identity [] = []
remove_share_permission identity (p ∷ perms) =
    let rest = remove_share_permission identity perms in
    if not (str_eq p.identity identity) then p ∷ rest else rest

pub record ShareRequest : Type 0 where
  pub identity : String
  pub level : String
  pub kind : String

-- A status and, after a success, the sandbox that was written.
pub data Shared : Type 0 where
  refused : ℕ → Shared
  written : Sandbox → Shared
  unchanged : Shared

abbrev pub or_empty : Option Sharing → Sharing
or_empty none = record { users = []; groups = [] }
or_empty (some sharing) = sharing

abbrev pub with_permission : ShareRequest → Sharing → Sharing
with_permission req sharing =
    let perm : SharePermission = record { identity = req.identity; level = req.level } in
    if str_eq req.kind "group"
    then record sharing { groups = upsert_share_permission perm sharing.groups }
    else record sharing { users = upsert_share_permission perm sharing.users }

-- Update of the sandbox, which may fail.
abbrev pub saved : Bool → Sandbox → Shared
saved ok sb = if ok then written sb else refused 500

abbrev pub share : Bool → ShareRequest → Option Sandbox → Shared
share ok req none = refused 403
share ok req (some sb) =
    saved ok (record sb { sharing = some (with_permission req (or_empty sb.sharing)) })

-- `update` is whether the Update succeeds; `resolved` what resolveSandbox finds.
unfoldable pub handle_share_sandbox :
    Option Claims → Option ShareRequest → Option Sandbox → Bool → Shared
handle_share_sandbox none body resolved update = refused 401
handle_share_sandbox (some claims) none resolved update = refused 400
handle_share_sandbox (some claims) (some req) resolved update =
    if str_eq req.identity ""
    then refused 400
    else (if not (str_eq req.level "viewer") && not (str_eq req.level "collaborator")
        then refused 400
        else share update req (get_sandbox_with_auth_check resolved claims))

abbrev pub without_identity : String → Sharing → Sharing
without_identity identity sharing = record {
  users = remove_share_permission identity sharing.users;
  groups = remove_share_permission identity sharing.groups;
}

abbrev pub revoke_from : Bool → String → Sandbox → Option Sharing → Shared
revoke_from update identity sb none = unchanged
revoke_from update identity sb (some sharing) =
    saved update (record sb { sharing = some (without_identity identity sharing) })

abbrev pub revoke : Bool → String → Option Sandbox → Shared
revoke update identity none = refused 403
revoke update identity (some sb) = revoke_from update identity sb sb.sharing

unfoldable pub handle_revoke_share : Option Claims → String → Option Sandbox → Bool → Shared
handle_revoke_share none identity resolved update = refused 401
handle_revoke_share (some claims) identity resolved update =
    revoke update identity (get_sandbox_with_auth_check resolved claims)
