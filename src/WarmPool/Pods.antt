-- ===== src/WarmPool/Pods.antt =====
-- The pods of the pool as pool.go reads them.
use agenttier.Prelude.{
  ℕ, String, Bool, false, Option, none, some, List, [], ◌∷◌, any, if◌then◌else◌,
}
use agenttier.Reconcile.Pods.{PodPhase, pod_running, Condition, has_phase}

-- `pooled` is the label agenttier.io/pooled, `template` that of the pool's template, "" without one;
-- `volumes` has the claim's name for each volume that is one; `version` is the resource version.
pub record PoolPod : Type 0 where
  pub name : String
  pub pooled : Bool
  pub template : String
  pub phase : PodPhase
  pub conditions : List Condition
  pub volumes : List (Option String)
  pub version : ℕ

unfoldable pub is_pod_ready : PoolPod → Bool
is_pod_ready pod =
    if has_phase pod.phase pod_running
    then any (λ (c : Condition). if c.is_ready_type then c.is_true else false) pod.conditions
    else false

-- The first volume that is a claim, "" without one.
unfoldable pub claim_name : List (Option String) → String
claim_name [] = ""
claim_name (some name ∷ volumes) = name
claim_name (none ∷ volumes) = claim_name volumes

-- The copy without the two labels.
abbrev pub unlabelled : PoolPod → PoolPod
unlabelled pod = record pod { pooled = false; template = "" }
