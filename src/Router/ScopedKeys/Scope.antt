-- ===== src/Router/ScopedKeys/Scope.antt =====
-- Exactly what a scoped key may do.
use agenttier.Prelude.{
  String, true, Option, none, some, List, [], ◌∷◌, ◌≡◌, ◌≢◌, refl, sym, ap, subst, ◌↔◌, inl, inr,
  arith, eq_iff, In, name_cases,
}
use agenttier.Webhook.Subscription.{lookup}
use agenttier.Router.ScopedKeys.{
  Claims, Route, next, scoped_key_route_actions, string_slice_contains, route_key, check_scope,
  require_sandbox_scope,
}

any-In : (xs : List String) (v : String) → (string_slice_contains xs v ≡ true) ↔ In v xs
any-In [] v = (λ h. cc, λ m. absurd m)
any-In (x ∷ xs) v =
    let (to, from) = any-In xs v in
    (
      λ h. elim (name_cases x v) [
        | inl same ↦ inl (sym same)
        | inr other ↦ inr (to (ground arith))
      ],
      λ m. elim m [
        | inl same ↦ ground (arith, eq_iff x v)
        | inr later ↦ let rest = from later in ground arith
      ],
    )

lookup-In :
    (k v : String) (table : List (String × String)) → lookup k table ≡ some v → In (k, v) table
unfolding lookup
lookup-In k v [] h = cc
lookup-In k v ((j, w) ∷ table) h = elim (name_cases j k) [
  | inl same ↦ inl (ground (arith, eq_iff j k))
  | inr other ↦ inr (lookup-In k v table (ground arith))
]

check_scope_iff :
    (claims : Claims) (route : Route) (found : Option String)
    → (check_scope claims route found ≡ next) ↔ (
        (action : String) × (found ≡ some action)
        × (route.id ≡ claims.sandbox_id)
        × In action claims.action_groups)
check_scope_iff claims route none = (λ h. cc, λ h. let e = h.1 in cc)
check_scope_iff claims route (some action) =
    let (to, from) = any-In claims.action_groups action in
    (
      λ h. (action, refl, ground (arith, eq_iff route.id claims.sandbox_id), to (ground arith)),
      λ (a, e, bound, granted). ground (
        arith,
        eq_iff route.id claims.sandbox_id,
        from (
            subst (λ b. In b claims.action_groups)
              (ap (λ o. elim o [ none ↦ action | some b ↦ b ]) (sym e)) granted),
      ),
    )

-- A key that is bound to a sandbox passes on exactly the routes of the table that are matched, whose
-- variable `id` is that sandbox and whose action is one of the key's action groups.
pub require_sandbox_scope_iff :
    (claims : Claims) (route : Route)
    → claims.sandbox_id ≢ ""
    → (require_sandbox_scope (some claims) route ≡ next) ↔ (
        (route.template ≢ "")
        × ((action : String) × (lookup (route_key route) scoped_key_route_actions ≡ some action)
            × (route.id ≡ claims.sandbox_id)
            × In action claims.action_groups))
unfolding require_sandbox_scope
require_sandbox_scope_iff claims route bound =
    let (to, from) =
      check_scope_iff claims route (lookup (route_key route) scoped_key_route_actions) in
    elim (name_cases claims.sandbox_id "") [
      | inl same ↦ absurd (bound same)
      | inr scoped ↦ rw scoped (elim (name_cases route.template "") [
        | inl unmatched ↦
            (λ h. ground (arith, eq_iff route.template ""), λ h. absurd (h.0 unmatched))
        | inr matched ↦
            rw matched (λ h. (λ e. ground (arith, eq_iff route.template ""), to h), λ h. from h.1)
      ])
    ]
