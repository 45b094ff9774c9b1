-- ===== src/Lifecycle/Actions/Agreement.antt =====
-- What the tables of allowed actions say, and that the two of them agree on the user's actions.
use agenttier.Prelude.{
  String, true, false, ◌≡◌, refl, sym, subst, ◌↔◌, ◌⊎◌, inl, inr, arith, name_cases,
}
use agenttier.Lifecycle.Phase.{Phase, creating, running, stopped, error}
use agenttier.Lifecycle.Actions.{
  can_transition, is_nil, is_invalid_transition, validate_action, validate_state_transition,
}

-- A user stops what runs or has failed, resumes what is stopped or has failed, and deletes what has
-- left creation.
pub data Allowed : Phase → String → Type 0 where
  stop_running : Allowed running "stop"
  stop_error : Allowed error "stop"
  resume_stopped : Allowed stopped "resume"
  resume_error : Allowed error "resume"
  delete_running : Allowed running "delete"
  delete_stopped : Allowed stopped "delete"
  delete_error : Allowed error "delete"

Allowed-sound : (p : Phase) (a : String) → can_transition p a ≡ true → Allowed p a
unfolding can_transition
Allowed-sound creating a h = cc
Allowed-sound running a h = elim (name_cases "stop" a) [
  | inl e ↦ subst (Allowed running) e stop_running
  | inr n ↦ elim (name_cases "delete" a) [
    | inl e ↦ subst (Allowed running) e delete_running
    | inr m ↦ ground arith
  ]
]
Allowed-sound stopped a h = elim (name_cases "resume" a) [
  | inl e ↦ subst (Allowed stopped) e resume_stopped
  | inr n ↦ elim (name_cases "delete" a) [
    | inl e ↦ subst (Allowed stopped) e delete_stopped
    | inr m ↦ ground arith
  ]
]
Allowed-sound error a h = elim (name_cases "resume" a) [
  | inl e ↦ subst (Allowed error) e resume_error
  | inr n ↦ elim (name_cases "stop" a) [
    | inl e ↦ subst (Allowed error) e stop_error
    | inr m ↦ elim (name_cases "delete" a) [
      | inl e ↦ subst (Allowed error) e delete_error
      | inr k ↦ ground arith
    ]
  ]
]
Allowed-sound p a h = cc

Allowed-complete : {p : Phase} {a : String} → Allowed p a → can_transition p a ≡ true
unfolding can_transition
Allowed-complete stop_running = refl
Allowed-complete stop_error = refl
Allowed-complete resume_stopped = refl
Allowed-complete resume_error = refl
Allowed-complete delete_running = refl
Allowed-complete delete_stopped = refl
Allowed-complete delete_error = refl

-- CanTransition holds exactly of the listed pairs of a phase and an action.
pub can_transition_iff : (p : Phase) (a : String) → (can_transition p a ≡ true) ↔ Allowed p a
can_transition_iff p a = (Allowed-sound p a, Allowed-complete)

-- The actions of a user, as opposed to the transitions that the controller makes by itself.
abbrev pub IsUserAction : String → Type 0
IsUserAction a = (a ≡ "stop") ⊎ ((a ≡ "resume") ⊎ (a ≡ "delete"))

AgreeOn : (p : Phase) (a : String) → Type 0
AgreeOn p a = can_transition p a ≡ is_nil (validate_state_transition p a)

agree-stop : (p : Phase) → AgreeOn p "stop"
unfolding AgreeOn can_transition validate_state_transition
agree-stop creating = refl
agree-stop running = refl
agree-stop stopped = refl
agree-stop error = refl
agree-stop _ = refl

agree-resume : (p : Phase) → AgreeOn p "resume"
unfolding AgreeOn can_transition validate_state_transition
agree-resume creating = refl
agree-resume running = refl
agree-resume stopped = refl
agree-resume error = refl
agree-resume _ = refl

agree-delete : (p : Phase) → AgreeOn p "delete"
unfolding AgreeOn can_transition validate_state_transition
agree-delete creating = refl
agree-delete running = refl
agree-delete stopped = refl
agree-delete error = refl
agree-delete _ = refl

-- On the actions of a user the two tables of allowed transitions say the same, in every phase.
pub tables_agree :
    (p : Phase) (a : String)
    → IsUserAction a
    → can_transition p a ≡ is_nil (validate_state_transition p a)
unfolding AgreeOn
tables_agree p a (inl e) = subst (AgreeOn p) (sym e) (agree-stop p)
tables_agree p a (inr (inl e)) = subst (AgreeOn p) (sym e) (agree-resume p)
tables_agree p a (inr (inr e)) = subst (AgreeOn p) (sym e) (agree-delete p)

-- A refusal is an InvalidTransitionError exactly when the phase is one of the four that are known:
-- Creating, Running, Stopped and Error.
pub is_invalid_transition_iff :
    (p : Phase) (a : String)
    → (is_invalid_transition (validate_action p a) ≡ true) ↔ (
        (can_transition p a ≡ false)
        × ((p ≡ creating) ⊎ (p ≡ running) ⊎ (p ≡ stopped) ⊎ (p ≡ error)))
unfolding can_transition is_invalid_transition validate_action
is_invalid_transition_iff p a = ground arith
