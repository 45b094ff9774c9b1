-- ===== src/Router/Access/Tests.antt =====
-- The theorems on access to sandboxes at concrete inputs.
use agenttier.Prelude.{true, false, none, some, [], ◌∷◌, ◌≡◌, refl, inl}
use agenttier.Keys.Validator.{Claims}
use agenttier.Router.Access.{
  Sandbox, ShareRequest, written, upsert_share_permission, remove_share_permission,
  handle_share_sandbox, handle_revoke_share, user_can_access_sandbox,
}
use agenttier.Router.Access.Mirror.{as_read, user_can_access_sandbox-mirror}
use agenttier.Router.Access.Revoked.{handle_revoke_share-user_can_access_sandbox}
use agenttier.Router.Access.Shares.{MayShare, handle_share_sandbox-user_can_access_sandbox}
use agenttier.Webhook.Subscription as Subscription

abbrev ada : Claims
ada = record {
  sub = "ada";
  email = "";
  name = "";
  groups = [];
  is_admin = false;
  sandbox_id = "";
  action_groups = [];
}

abbrev bob : Claims
bob = record ada { sub = "bob" }

abbrev private_sandbox : Sandbox
private_sandbox = record { name = "sb-1"; created_by = some "ada"; sharing = none }

abbrev shared_sandbox : Sandbox
shared_sandbox = record private_sandbox {
  sharing =
      some (record { users = record { identity = "bob"; level = "viewer" } ∷ []; groups = [] });
}

abbrev unshared_sandbox : Sandbox
unshared_sandbox = record private_sandbox { sharing = some (record { users = []; groups = [] }) }

user_can_access_sandbox-mirror_example :
    user_can_access_sandbox shared_sandbox bob
    ≡ Subscription.user_can_access_sandbox (as_read shared_sandbox) bob.sub
user_can_access_sandbox-mirror_example =
    user_can_access_sandbox-mirror shared_sandbox bob refl refl refl refl

abbrev request : ShareRequest
request = record { identity = "bob"; level = "viewer"; kind = "user" }

shares :
    handle_share_sandbox (some ada) (some request) (some private_sandbox) true
    ≡ written shared_sandbox
unfolding handle_share_sandbox upsert_share_permission
shares = refl

handle_share_sandbox-user_can_access_sandbox_example :
    (user_can_access_sandbox shared_sandbox bob ≡ true)
    × ((sb : Sandbox) × MayShare (some private_sandbox) ada sb
        × (shared_sandbox.created_by ≡ sb.created_by))
handle_share_sandbox-user_can_access_sandbox_example =
    handle_share_sandbox-user_can_access_sandbox ada request (some private_sandbox) true
      shared_sandbox bob refl refl shares

revokes : handle_revoke_share (some ada) "bob" (some shared_sandbox) true ≡ written unshared_sandbox
unfolding handle_revoke_share remove_share_permission
revokes = refl

handle_revoke_share-user_can_access_sandbox_example :
    (user_can_access_sandbox unshared_sandbox bob ≡ false)
    × ((sb : Sandbox) × MayShare (some shared_sandbox) ada sb
        × (unshared_sandbox.created_by ≡ sb.created_by))
handle_revoke_share-user_can_access_sandbox_example =
    handle_revoke_share-user_can_access_sandbox ada "bob" (some shared_sandbox) true
      unshared_sandbox bob (refl, inl refl, refl) refl refl revokes
