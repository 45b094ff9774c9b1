-- ===== src/Router/Access/Revoked.antt =====
-- Revoking a share of a sandbox in pkg/router/handlers.go: who may use it afterwards.
use agenttier.Prelude.{
  String, Bool, true, false, not, ◌&&◌, ◌||◌, Option, none, some, List, [], ◌∷◌, ◌≡◌, refl, sym, ap,
  subst, arith, str_eq, any, Bool-cases, inl, inr, ◌⊎◌,
}
use agenttier.Keys.Validator.{Claims}
use agenttier.Router.Access.{
  SharePermission, Sharing, Sandbox, is_owner, names_user, names_group, is_shared,
  user_can_access_sandbox, get_sandbox_with_auth_check, remove_share_permission, written,
  without_identity, revoke_from, revoke, handle_revoke_share,
}
use agenttier.Router.Access.Shares.{saved_lem, MayShare, checked}

-- Whom the caller goes by: an identifier, and an e-mail address that is the same or empty.
abbrev pub GoesBy : Claims → String → Type 0
GoesBy claims identity =
    (claims.sub ≡ identity)
    × ((claims.email ≡ "") ⊎ (claims.email ≡ identity))
    × (claims.groups ≡ [])

no_user_left :
    (claims : Claims) (identity : String) (perms : List SharePermission)
    → GoesBy claims identity
    → any (names_user claims) (remove_share_permission identity perms) ≡ false
unfolding remove_share_permission
no_user_left claims identity [] by = refl
no_user_left claims identity (p ∷ perms) by =
    let rest = no_user_left claims identity perms by in
    elim (Bool-cases (str_eq p.identity identity)) [
      | inl same ↦ rw same rest
      | inr other ↦ elim by.1 [
        | inl empty ↦ rw (other, rest, by.0, empty, other) (differs (str_eq p.identity ""))
        | inr same ↦ rw (other, rest, by.0, same, other) (alike (str_eq p.identity ""))
      ]
    ]
  where
    differs : (b : Bool) → ((not b && (false || b)) || false) ≡ false
    differs true = refl
    differs false = refl

    alike : (b : Bool) → ((not b && (false || false)) || false) ≡ false
    alike true = refl
    alike false = refl

no_group_left :
    (claims : Claims) (perms : List SharePermission)
    → claims.groups ≡ []
    → any (names_group claims) perms ≡ false
no_group_left claims [] none_given = refl
no_group_left claims (p ∷ perms) none_given =
    rw (none_given, no_group_left claims perms none_given) refl

-- Whom a revoked share named can no longer use the sandbox, unless he is an admin or owns it.
abbrev Bars : String → Sandbox → Type 0
Bars identity sb' =
    (user : Claims)
    → GoesBy user identity
    → user.is_admin ≡ false
    → is_owner sb'.created_by user.sub ≡ false
    → user_can_access_sandbox sb' user ≡ false

shared_no_more :
    (identity : String) (sharing : Sharing) (user : Claims)
    → GoesBy user identity
    → is_shared (some (without_identity identity sharing)) user ≡ false
shared_no_more identity sharing user by =
    rw
      (
        no_user_left user identity sharing.users by,
        no_group_left user (remove_share_permission identity sharing.groups) by.2,
      )
      refl

barred :
    (identity : String) (sb : Sandbox) (sharing : Sharing)
    → Bars identity (record sb { sharing = some (without_identity identity sharing) })
unfolding user_can_access_sandbox
barred identity sb sharing user by plain foreign =
    ground (arith, plain, foreign, shared_no_more identity sharing user by)

revoke_from-Bars :
    (update : Bool) (identity : String) (sb : Sandbox) (sharing : Option Sharing) (sb' : Sandbox)
    → revoke_from update identity sb sharing ≡ written sb'
    → Bars identity sb' × (sb'.created_by ≡ sb.created_by)
revoke_from-Bars update identity sb none sb' is = absurd (cc)
revoke_from-Bars update identity sb (some sharing) sb' is =
    let same =
      saved_lem update (record sb { sharing = some (without_identity identity sharing) }) sb' is in
    (subst (Bars identity) same (barred identity sb sharing), ap Sandbox.created_by (sym same))

revoke-Bars :
    (update : Bool) (identity : String) (resolved : Option Sandbox) (caller : Claims)
    (found : Option Sandbox) (sb' : Sandbox)
    → get_sandbox_with_auth_check resolved caller ≡ found
    → revoke update identity found ≡ written sb'
    → Bars identity sb'
      × ((sb : Sandbox) × MayShare resolved caller sb × (sb'.created_by ≡ sb.created_by))
revoke-Bars update identity resolved caller none sb' auth is = absurd (cc)
revoke-Bars update identity resolved caller (some sb) sb' auth is =
    let (bars, owner) = revoke_from-Bars update identity sb sb.sharing sb' is in
    (bars, (sb, checked resolved caller sb auth, owner))

revoke_lem :
    (caller : Claims) (identity : String) (resolved : Option Sandbox) (update : Bool)
    (sb' : Sandbox)
    → handle_revoke_share (some caller) identity resolved update ≡ written sb'
    → Bars identity sb'
      × ((sb : Sandbox) × MayShare resolved caller sb × (sb'.created_by ≡ sb.created_by))
unfolding handle_revoke_share
revoke_lem caller identity resolved update sb' is =
    revoke-Bars update identity resolved caller (get_sandbox_with_auth_check resolved caller) sb'
      refl is

-- A revoked share is written only for an owner of the sandbox or an admin, and leaves the owner as it
-- is. A user who goes by the identity that it names, with no other e-mail address and in no group,
-- and who is no admin and does not own the sandbox, can then no longer use it.
pub handle_revoke_share-user_can_access_sandbox :
    (caller : Claims) (identity : String) (resolved : Option Sandbox) (update : Bool)
    (sb' : Sandbox) (user : Claims)
    → GoesBy user identity
    → user.is_admin ≡ false
    → is_owner sb'.created_by user.sub ≡ false
    → handle_revoke_share (some caller) identity resolved update ≡ written sb'
    → (user_can_access_sandbox sb' user ≡ false)
      × ((sb : Sandbox) × MayShare resolved caller sb × (sb'.created_by ≡ sb.created_by))
handle_revoke_share-user_can_access_sandbox caller identity resolved update sb' user by plain
      foreign is =
    let (bars, rightful) = revoke_lem caller identity resolved update sb' is in
    (bars user by plain foreign, rightful)
