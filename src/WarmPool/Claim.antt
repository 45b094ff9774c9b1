-- ===== src/WarmPool/Claim.antt =====
-- Claim of pool.go: take a ready pod out of the pool, or find that there is none.
pub mod Outcomes
use agenttier.Prelude.{
  ℕ, zero, suc, ◌+◌, String, Bool, true, false, Option, none, some, List, [], ◌∷◌, if◌then◌else◌,
}
use agenttier.WarmPool.Pods.{PoolPod, is_pod_ready, claim_name, unlabelled}

abbrev pub claim_max_attempts : ℕ
claim_max_attempts = 3

-- What the API server answers to an update.
pub data Answer : Type 0 where
  won conflict gone broken : Answer

-- The answers of the API server: to the List of each attempt, `none` if it fails, and to the update of
-- a pod's copy.
pub record ClaimEnv : Type 0 where
  pub listed : ℕ → Option (List PoolPod)
  pub updated : ℕ → PoolPod → Answer

pub data Claimed : Type 0 where
  claimed : String → String → Claimed
  no_pod claim_failed : Claimed

-- What the walk over one list comes to; `walked` says whether a race was lost on the way.
pub data Walk : Type 0 where
  taken : PoolPod → Walk
  stopped : Walk
  walked : Bool → Walk

-- What follows an answer; `further` is the walk over the rest.
abbrev pub after_answer : Answer → PoolPod → (Bool → Walk) → Walk
after_answer won pod further = taken pod
after_answer conflict pod further = further true
after_answer gone pod further = further true
after_answer broken pod further = stopped

-- A pod that is not ready is passed over.
abbrev pub visit : Bool → Answer → PoolPod → (Bool → Walk) → Bool → Walk
visit false answer pod further saw_conflict = further saw_conflict
visit true answer pod further saw_conflict = after_answer answer pod further

unfoldable pub walk : (PoolPod → Answer) → List PoolPod → Bool → Walk
walk update [] saw_conflict = walked saw_conflict
walk update (pod ∷ pods) saw_conflict =
    visit (is_pod_ready pod) (update (unlabelled pod)) pod (walk update pods) saw_conflict

-- The rest of the attempts is looked at only after a lost race.
abbrev pub after_walk : Walk → Claimed → Claimed
after_walk (taken pod) again = claimed pod.name (claim_name pod.volumes)
after_walk stopped again = claim_failed
after_walk (walked false) again = no_pod
after_walk (walked true) again = again

abbrev pub attempted : Option (List PoolPod) → (PoolPod → Answer) → Claimed → Claimed
attempted none update again = claim_failed
attempted (some pods) update again = after_walk (walk update pods false) again

unfoldable pub claim_from : ClaimEnv → ℕ → ℕ → Claimed
claim_from env attempt zero = no_pod
claim_from env attempt (suc left) =
    attempted (env.listed attempt) (env.updated attempt) (claim_from env (attempt + 1) left)

unfoldable pub claim : ClaimEnv → Claimed
unfolding claim_from walk
claim env = claim_from env 0 claim_max_attempts
