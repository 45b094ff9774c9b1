-- ===== src/Agent/Invoke/Cancel.antt =====
-- handleInvokeCancel of pkg/router/agent/invoke.go.
use agenttier.Prelude.{
  ℕ, String, Bool, true, false, not, ◌&&◌, Option, none, some, List, ◌≡◌, refl, if◌then◌else◌,
  str_eq, eq_iff, inl, inr, ◌⊎◌, Bool-cases,
}
use agenttier.Webhook.Subscription.{lookup}

-- An entry of the registry of invokes, without its times.
pub record RegistryEntry : Type 0 where
  pub sandbox_id : String
  pub actor : String

-- What is cancelled: a run of this Router by its context, one of the pod's runtime by its call.
pub data Cancelled : Type 0 where
  here at_runtime : String → Cancelled
  answered : ℕ → Cancelled

-- `runtime` answers whether the runtime in the pod, if it is in use, knew the invoke.
unfoldable pub cancel_at_runtime : Bool → Option (String → Bool) → String → Cancelled
cancel_at_runtime is_admin none invoke_id = answered 404
cancel_at_runtime is_admin (some runtime) invoke_id =
    if not is_admin
    then answered 404
    else (if runtime invoke_id then at_runtime invoke_id else answered 404)

unfoldable pub cancel_found :
    String → String → Bool → Option (String → Bool) → String → Option RegistryEntry → Cancelled
cancel_found name sub is_admin runtime invoke_id none = cancel_at_runtime is_admin runtime invoke_id
cancel_found name sub is_admin runtime invoke_id (some entry) =
    if not (str_eq entry.sandbox_id name)
    then answered 404
    else (if not is_admin && not (str_eq entry.actor sub) then answered 403 else here invoke_id)

-- The name and mode of the sandbox, the caller, and the invoke named in the body, if it decodes.
unfoldable pub handle_invoke_cancel :
    String
    → String
    → String
    → Bool
    → Option (String → Bool)
    → List (String × RegistryEntry)
    → Option String
    → Cancelled
unfolding lookup
handle_invoke_cancel name mode sub is_admin runtime registry none = answered 400
handle_invoke_cancel name mode sub is_admin runtime registry (some invoke_id) =
    if not (str_eq mode "agent")
    then answered 400
    else (if str_eq invoke_id ""
        then answered 400
        else cancel_found name sub is_admin runtime invoke_id (lookup invoke_id registry))

-- Who may have what cancelled, by the entry of the registry.
abbrev pub Rightful :
    String
    → String
    → Bool
    → Option (String → Bool)
    → String
    → Option RegistryEntry
    → Cancelled
    → Type 0
Rightful name sub is_admin runtime invoke_id found (answered status) = Unit
Rightful name sub is_admin runtime invoke_id found (here id) =
    (id ≡ invoke_id)
    × ((entry : RegistryEntry) × (found ≡ some entry)
        × (entry.sandbox_id ≡ name)
        × ((is_admin ≡ true) ⊎ (entry.actor ≡ sub)))
Rightful name sub is_admin runtime invoke_id found (at_runtime id) =
    (id ≡ invoke_id)
    × (is_admin ≡ true)
    × (found ≡ none)
    × ((knows : String → Bool) × (runtime ≡ some knows) × (knows invoke_id ≡ true))

cancel_at_runtime-Rightful :
    (name sub : String) (is_admin : Bool) (runtime : Option (String → Bool)) (invoke_id : String)
    → Rightful name sub is_admin runtime invoke_id none
        (cancel_at_runtime is_admin runtime invoke_id)
unfolding cancel_at_runtime
cancel_at_runtime-Rightful name sub is_admin none invoke_id = tt
cancel_at_runtime-Rightful name sub false (some knows) invoke_id = tt
cancel_at_runtime-Rightful name sub true (some knows) invoke_id =
    elim (Bool-cases (knows invoke_id)) [
      | inl known ↦ rw known (refl, refl, refl, (knows, refl, known))
      | inr unknown ↦ rw unknown tt
    ]

cancel_found-Rightful :
    (name sub : String) (is_admin : Bool) (runtime : Option (String → Bool)) (invoke_id : String)
    (found : Option RegistryEntry)
    → Rightful name sub is_admin runtime invoke_id found
        (cancel_found name sub is_admin runtime invoke_id found)
unfolding cancel_found
cancel_found-Rightful name sub is_admin runtime invoke_id none =
    cancel_at_runtime-Rightful name sub is_admin runtime invoke_id
cancel_found-Rightful name sub is_admin runtime invoke_id (some entry) =
    elim (Bool-cases (str_eq entry.sandbox_id name)) [
      | inr other ↦ rw other tt
      | inl same ↦ elim (Bool-cases (str_eq entry.actor sub)) [
        | inl own ↦
            let actor = (eq_iff entry.actor sub).0 own in
            let place = (eq_iff entry.sandbox_id name).0 same in
            rw (same, own) (allowed is_admin (refl, (entry, refl, place, inr actor)))
        | inr foreign ↦
            rw (same, foreign) (by_admin is_admin ((eq_iff entry.sandbox_id name).0 same))
      ]
    ]
  where
    allowed :
        (b : Bool)
        → Rightful name sub is_admin runtime invoke_id (some entry) (here invoke_id)
        → Rightful name sub is_admin runtime invoke_id
            (some entry)
            (if not b && false then answered 403 else here invoke_id)
    allowed true h = h
    allowed false h = h

    by_admin :
        (b : Bool)
        → entry.sandbox_id ≡ name
        → Rightful name sub b runtime invoke_id
            (some entry)
            (if not b && true then answered 403 else here invoke_id)
    by_admin true place = (refl, (entry, refl, place, inl refl))
    by_admin false place = tt

-- A run of this Router is cancelled only if it is in the registry under the name in the body, for the
-- sandbox that it was started in, and by an admin or the caller who started it; one of the pod's
-- runtime only by an admin, for a name that is not in the registry and that the runtime knows.
pub handle_invoke_cancel-Rightful :
    (name mode sub : String) (is_admin : Bool) (runtime : Option (String → Bool))
    (registry : List (String × RegistryEntry)) (invoke_id : String)
    → Rightful name sub is_admin runtime invoke_id
        (lookup invoke_id registry)
        (handle_invoke_cancel name mode sub is_admin runtime registry (some invoke_id))
unfolding handle_invoke_cancel
handle_invoke_cancel-Rightful name mode sub is_admin runtime registry invoke_id =
    elim (Bool-cases (str_eq mode "agent")) [
      | inr other ↦ rw other tt
      | inl agent ↦ elim (Bool-cases (str_eq invoke_id "")) [
        | inl empty ↦ rw (agent, empty) tt
        | inr named ↦
            rw (agent, named)
              (cancel_found-Rightful name sub is_admin runtime invoke_id
                (lookup invoke_id registry))
      ]
    ]
