-- ===== src/Lifecycle/Actions.antt =====
-- pkg/controller/state_machine.go, and ValidateStateTransition of pkg/controller/lifecycle.go: which
-- actions a phase allows. An action is its text; a nil error is `none`.
pub mod Agreement
use agenttier.Prelude.{String, Bool, true, false, Option, none, some, List, [], ◌∷◌, any, str_eq}
use agenttier.Prelude.{if◌then◌else◌}
use agenttier.Lifecycle.Phase.{Phase, creating, running, stopped, error}

abbrev pub action_stop : String
action_stop = "stop"

abbrev pub action_resume : String
action_resume = "resume"

abbrev pub action_delete : String
action_delete = "delete"

-- The map `validTransitions`: `none` for a phase that is not a key.
abbrev pub valid_transitions : Phase → Option (List String)
valid_transitions creating = some []
valid_transitions running = some (action_stop ∷ action_delete ∷ [])
valid_transitions stopped = some (action_resume ∷ action_delete ∷ [])
valid_transitions error = some (action_resume ∷ action_stop ∷ action_delete ∷ [])
valid_transitions _ = none

pub data TransitionError : Type 0 where
  unknown_phase : Phase → TransitionError
  invalid_transition : Phase → String → List String → TransitionError

abbrev check_allowed : Phase → String → Option (List String) → Option TransitionError
check_allowed phase action none = some (unknown_phase phase)
check_allowed phase action (some allowed) =
    if any (λ a. str_eq a action) allowed
    then none
    else some (invalid_transition phase action allowed)

unfoldable pub validate_action : Phase → String → Option TransitionError
validate_action phase action = check_allowed phase action (valid_transitions phase)

abbrev pub is_nil {ℓ} : {A : Type ℓ} → Option A → Bool
is_nil none = true
is_nil (some e) = false

unfoldable pub is_invalid_transition : Option TransitionError → Bool
is_invalid_transition (some (invalid_transition phase action allowed)) = true
is_invalid_transition _ = false

unfoldable pub can_transition : Phase → String → Bool
unfolding validate_action
can_transition phase action = is_nil (validate_action phase action)

-- The second table, local to ValidateStateTransition, with the transitions that the controller makes.
abbrev pub state_transitions : Phase → Option (List String)
state_transitions creating = some ("running" ∷ "error" ∷ [])
state_transitions running = some ("stop" ∷ "error" ∷ "delete" ∷ [])
state_transitions stopped = some ("resume" ∷ "delete" ∷ [])
state_transitions error = some ("resume" ∷ "stop" ∷ "delete" ∷ [])
state_transitions _ = none

unfoldable pub validate_state_transition : Phase → String → Option TransitionError
validate_state_transition phase action = check_allowed phase action (state_transitions phase)
