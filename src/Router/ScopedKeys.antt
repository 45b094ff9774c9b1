-- ===== src/Router/ScopedKeys.antt =====
-- pkg/router/scopedkey_middleware.go: what a key that is bound to one sandbox may do.
pub mod Scope
use Prim.Native.String
use agenttier.Prelude.{
  String, Bool, true, false, not, Option, none, some, List, [], ◌∷◌, if◌then◌else◌, str_eq, any,
}
use agenttier.Webhook.Subscription.{lookup}

-- The fields of Claims that the middleware reads.
pub record Claims : Type 0 where
  pub sandbox_id : String
  pub action_groups : List String

-- The method and template of a route that was matched, and its variable `id`.
pub record Route : Type 0 where
  pub method : String
  pub template : String
  pub id : String

pub data Decision : Type 0 where
  next : Decision
  forbidden : String → Decision

abbrev pub scoped_key_route_actions : List (String × String)
scoped_key_route_actions =
    ("POST /api/v1/sandboxes/{id}/exec", "run-command")
    ∷ ("GET /api/v1/sandboxes/{id}/files/", "files:read")
    ∷ ("GET /api/v1/sandboxes/{id}/files/{path:.*}", "files:read")
    ∷ ("PUT /api/v1/sandboxes/{id}/files/{path:.*}", "files:write")
    ∷ ("GET /api/v1/sandboxes/{id}/archive", "files:read")
    ∷ ("GET /api/v1/sandboxes/{id}/ports", "ports")
    ∷ ("POST /api/v1/sandboxes/{id}/ports", "ports")
    ∷ ("DELETE /api/v1/sandboxes/{id}/ports/{port}", "ports")
    ∷ ("POST /api/v1/sandboxes/{id}/configure", "agent:configure")
    ∷ ("GET /api/v1/sandboxes/{id}/configure/install-log", "agent:configure")
    ∷ ("POST /api/v1/sandboxes/{id}/invoke", "agent:invoke")
    ∷ ("POST /api/v1/sandboxes/{id}/invoke/cancel", "agent:invoke")
    ∷ ("POST /api/v1/sandboxes/{id}/resume", "resume")
    ∷ ("POST /api/v1/sandboxes/{id}/stop", "stop")
    ∷ []

abbrev pub string_slice_contains : List String → String → Bool
string_slice_contains list target = any (λ v. str_eq v target) list

abbrev pub route_key : Route → String
route_key route = String.◌++◌ route.method (String.◌++◌ " " route.template)

-- The checks on a route whose action is known.
abbrev pub check_scope : Claims → Route → Option String → Decision
check_scope claims route none = forbidden "scoped key not permitted for this route"
check_scope claims route (some action) =
    if not (str_eq route.id claims.sandbox_id)
    then forbidden "scoped key is not bound to this sandbox"
    else (if not (string_slice_contains claims.action_groups action)
        then forbidden
            (String.◌++◌ "scoped key lacks the \"" (String.◌++◌ action "\" action group"))
        else next)

-- The middleware: without claims, or with those of a user, the request passes.
unfoldable pub require_sandbox_scope : Option Claims → Route → Decision
unfolding lookup
require_sandbox_scope none route = next
require_sandbox_scope (some claims) route =
    if str_eq claims.sandbox_id ""
    then next
    else (if str_eq route.template ""
        then forbidden "scoped key not permitted for this route"
        else check_scope claims route (lookup (route_key route) scoped_key_route_actions))
