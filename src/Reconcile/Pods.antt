-- ===== src/Reconcile/Pods.antt =====
-- What the controller reads of a pod: is it ready, why did it fail, and is the failure the
-- infrastructure's (lifecycle.go and the end of sandbox_controller.go).
use agenttier.Prelude.{
  String, Bool, true, false, ◌||◌, Option, none, some, List, [], ◌∷◌, ◌++◌, any,
}
use agenttier.Prelude.{Text, codes, if◌then◌else◌, str_eq}

-- `corev1.PodPhase`
pub data PodPhase : Type 0 where
  pod_pending pod_running pod_succeeded pod_failed pod_unknown : PodPhase

-- `State.Terminated`: its reason and message.
pub record Terminated : Type 0 where
  pub reason : String
  pub message : Text

-- A container's status: `State.Terminated`, and the reason of `State.Waiting`.
pub record ContainerStatus : Type 0 where
  pub terminated : Option Terminated
  pub waiting_reason : Option String

pub record Condition : Type 0 where
  pub is_ready_type : Bool
  pub is_true : Bool

pub record Pod : Type 0 where
  pub name : String
  pub phase : PodPhase
  pub conditions : List Condition
  pub container_statuses : List ContainerStatus
  pub reason : String

abbrev pub has_phase : PodPhase → PodPhase → Bool
has_phase pod_pending pod_pending = true
has_phase pod_running pod_running = true
has_phase pod_succeeded pod_succeeded = true
has_phase pod_failed pod_failed = true
has_phase pod_unknown pod_unknown = true
has_phase _ _ = false

unfoldable pub is_pod_ready : Pod → Bool
is_pod_ready pod =
    if has_phase pod.phase pod_running
    then any (λ (c : Condition). if c.is_ready_type then c.is_true else false) pod.conditions
    else false

abbrev pub is_crash_loop : Option String → Bool
is_crash_loop none = false
is_crash_loop (some reason) = str_eq reason "CrashLoopBackOff"

-- The loop of getPodFailureReason over the containers; `fallback` is what follows it.
unfoldable pub first_failure : List ContainerStatus → Text → Text
first_failure [] fallback = fallback
first_failure (cs ∷ rest) fallback = elim cs.terminated [
  | some t ↦ codes t.reason ++ (codes ": " ++ t.message)
  | none ↦
      if is_crash_loop cs.waiting_reason
      then codes "CrashLoopBackOff"
      else first_failure rest fallback
]

unfoldable pub get_pod_failure_reason : Pod → Text
unfolding first_failure
get_pod_failure_reason pod =
    first_failure pod.container_statuses
      (if str_eq pod.reason "" then codes "Unknown failure" else codes pod.reason)

-- The `switch` on the reason of a terminated container; `none` falls through to what follows it.
abbrev pub verdict_of_reason : String → Option Bool
verdict_of_reason reason =
    if str_eq reason "OOMKilled" || str_eq reason "Evicted"
    then some true
    else (if str_eq reason "Completed" || str_eq reason "Error" then some false else none)

-- What a container's status decides, if anything.
abbrev pub verdict_of_container : ContainerStatus → Option Bool
verdict_of_container cs = elim cs.terminated [
  | none ↦ if is_crash_loop cs.waiting_reason then some true else none
  | some t ↦ elim (verdict_of_reason t.reason) [
    | some v ↦ some v
    | none ↦ if is_crash_loop cs.waiting_reason then some true else none
  ]
]

-- The loop over the containers. Both the pod-level reasons and the default say `true`.
unfoldable pub first_verdict : List ContainerStatus → Bool
first_verdict [] = true
first_verdict (cs ∷ rest) = elim (verdict_of_container cs) [
  | some v ↦ v
  | none ↦ first_verdict rest
]

unfoldable pub is_infrastructure_failure : Option Pod → Bool
unfolding first_verdict
is_infrastructure_failure none = true
is_infrastructure_failure (some pod) = first_verdict pod.container_statuses
