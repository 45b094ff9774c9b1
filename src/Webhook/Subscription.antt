-- ===== src/Webhook/Subscription.antt =====
-- pkg/controller/webhook_delivery/subscription.go, events.go and access.go: subscriptions, what they
-- match, and who may see a sandbox.
use agenttier.Prelude.{
  String, Bool, true, false, not, ◌&&◌, Option, none, some, List, [], ◌∷◌, any, if◌then◌else◌,
  str_eq,
}

pub record Subscription : Type 0 where
  pub id : String
  pub user_id : String
  pub url : String
  pub event_types : List String
  pub sandbox_id : String
  pub namespace : String
  pub disabled : Bool
  pub is_admin : Bool

-- A filter that is set and differs.
abbrev pub excludes : String → String → Bool
excludes filter value = not (str_eq filter "") && not (str_eq filter value)

unfoldable pub matches : Subscription → String → String → String → Bool
matches s event_type sandbox_namespace sandbox_name =
    if s.disabled
    then false
    else (if not (any (λ t. str_eq t event_type) s.event_types)
        then false
        else (if excludes s.sandbox_id sandbox_name
            then false
            else (if excludes s.namespace sandbox_namespace then false else true)))

-- eventReasonToWebhookType
abbrev pub event_reasons : List (String × String)
event_reasons =
    ("Creating", "sandbox.creating")
    ∷ ("Running", "sandbox.running")
    ∷ ("Stopped", "sandbox.stopped")
    ∷ ("Error", "sandbox.error")
    ∷ ("Deleted", "sandbox.deleting")
    ∷ ("BackupCreated", "backup.created")
    ∷ ("BackupPruned", "backup.pruned")
    ∷ ("ShareGranted", "share.granted")
    ∷ ("ShareRevoked", "share.revoked")
    ∷ ("AgentInvokeStarted", "agent.invoke.started")
    ∷ ("AgentInvokeCompleted", "agent.invoke.completed")
    ∷ ("AgentInvokeFailed", "agent.invoke.failed")
    ∷ []

-- A map as its entries.
unfoldable pub lookup {ℓ} : {V : Type ℓ} → String → List (String × V) → Option V
lookup k [] = none
lookup k ((j, v) ∷ m) = if str_eq j k then some v else lookup k m

unfoldable pub webhook_type_for_reason : String → Option String
unfolding lookup
webhook_type_for_reason reason = lookup reason event_reasons

-- What the access check reads of a sandbox: `CreatedBy.Sub`, and the identities of `Sharing.Users`.
pub record SandboxAccess : Type 0 where
  pub created_by : Option String
  pub sharing : Option (List String)

abbrev pub is_creator : Option String → String → Bool
is_creator none user_sub = false
is_creator (some sub) user_sub = str_eq sub user_sub

abbrev pub is_shared_with : Option (List String) → String → Bool
is_shared_with none user_sub = false
is_shared_with (some users) user_sub = any (λ u. not (str_eq u "") && str_eq u user_sub) users

unfoldable pub user_can_access_sandbox : SandboxAccess → String → Bool
user_can_access_sandbox sandbox user_sub =
    if str_eq user_sub ""
    then false
    else (if is_creator sandbox.created_by user_sub
        then true
        else is_shared_with sandbox.sharing user_sub)

-- canAccessSandbox, over the answer of the Get: `none` if it fails.
unfoldable pub can_access_sandbox : Subscription → Option SandboxAccess → Bool
unfolding user_can_access_sandbox
can_access_sandbox sub none = sub.is_admin
can_access_sandbox sub (some sandbox) =
    if sub.is_admin then true else user_can_access_sandbox sandbox sub.user_id
