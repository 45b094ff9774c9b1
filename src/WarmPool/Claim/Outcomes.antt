-- ===== src/WarmPool/Claim/Outcomes.antt =====
-- What each outcome of a claim says of the answers.
use agenttier.Prelude.{
  ℕ, zero, suc, ◌+◌, ◌≤◌, ◌<◌, Bool, true, false, Option, none, some, List, [], ◌∷◌, ◌≡◌, refl,
  subst, ◌⊎◌, inl, inr, arith, In, All, dec_lt,
}
use agenttier.WarmPool.Pods.{PoolPod, is_pod_ready, claim_name, unlabelled}
use agenttier.WarmPool.Claim.{
  claim_max_attempts, Answer, won, conflict, gone, broken, ClaimEnv, Claimed, claimed, no_pod,
  claim_failed, Walk, taken, stopped, walked, after_answer, visit, walk, after_walk, attempted,
  claim_from, claim,
}

-- A ready pod of the list whose update was accepted.
abbrev pub Won : (PoolPod → Answer) → List PoolPod → PoolPod → Type 0
Won update pods pod = In pod pods × (is_pod_ready pod ≡ true) × (update (unlabelled pod) ≡ won)

-- What the walk over a list says.
abbrev Walks : (PoolPod → Answer) → List PoolPod → Bool → Walk → Type 0
Walks update pods saw (taken pod) = Won update pods pod
Walks update pods saw stopped = Unit
Walks update pods saw (walked lost) =
    (lost ≡ false → (saw ≡ false) × All (λ (p : PoolPod). is_pod_ready p ≡ false) pods)

-- A walk over the rest, once the first pod was passed over unready or with a race lost.
passed :
    (update : PoolPod → Answer) (pod : PoolPod) (pods : List PoolPod) (saw saw' : Bool) (w : Walk)
    → (saw' ≡ false → (saw ≡ false) × (is_pod_ready pod ≡ false))
    → Walks update pods saw' w
    → Walks update (pod ∷ pods) saw w
passed update pod pods saw saw' (taken p) back (m, ready, own) = (inr m, ready, own)
passed update pod pods saw saw' stopped back t = tt
passed update pod pods saw saw' (walked lost) back quiet = λ e.
    let (clean, all) = quiet e in let (before, unready) = back clean in (before, (unready, all))

answered :
    (update : PoolPod → Answer) (pod : PoolPod) (pods : List PoolPod) (saw : Bool) (a : Answer)
    → is_pod_ready pod ≡ true
    → update (unlabelled pod) ≡ a
    → Walks update pods true (walk update pods true)
    → Walks update (pod ∷ pods) saw (after_answer a pod (walk update pods))
answered update pod pods saw won ready e rest = (inl refl, ready, e)
answered update pod pods saw conflict ready e rest =
    passed update pod pods saw true _ (λ h. cc) rest
answered update pod pods saw gone ready e rest = passed update pod pods saw true _ (λ h. cc) rest
answered update pod pods saw broken ready e rest = tt

visited :
    (update : PoolPod → Answer) (pod : PoolPod) (pods : List PoolPod) (saw ready : Bool)
    → is_pod_ready pod ≡ ready
    → ((b : Bool) → Walks update pods b (walk update pods b))
    → Walks update
        (pod ∷ pods)
        saw
        (visit ready (update (unlabelled pod)) pod (walk update pods) saw)
visited update pod pods saw false unready rest =
    passed update pod pods saw saw (walk update pods saw) (λ h. (h, unready)) (rest saw)
visited update pod pods saw true ready rest =
    answered update pod pods saw (update (unlabelled pod)) ready refl (rest true)

walk-Walks :
    (update : PoolPod → Answer) (pods : List PoolPod) (saw : Bool)
    → Walks update pods saw (walk update pods saw)
unfolding walk
walk-Walks update [] saw = λ e. (e, tt)
walk-Walks update (pod ∷ pods) saw =
    visited update pod pods saw (is_pod_ready pod) refl (λ b. walk-Walks update pods b)

-- A list with ready pods, and a race lost for each.
abbrev pub LostRaces : ClaimEnv → ℕ → Type 0
LostRaces env attempt =
    (pods : List PoolPod) × (env.listed attempt ≡ some pods)
    × (walk (env.updated attempt) pods false ≡ walked true)

abbrev pub NoneReady : ClaimEnv → ℕ → Type 0
NoneReady env attempt =
    (pods : List PoolPod) × (env.listed attempt ≡ some pods)
    × All (λ (p : PoolPod). is_pod_ready p ≡ false) pods

-- What an outcome says of the attempts from `first` on: a claimed pod was ready in a list and its
-- update was accepted; without a pod, either each attempt lost its races, or one found no ready pod.
abbrev pub Claims : ClaimEnv → ℕ → ℕ → Claimed → Type 0
Claims env first left (claimed name volume) =
    (attempt : ℕ) × (first ≤ attempt)
    × (attempt < first + left)
    × ((pods : List PoolPod) × (env.listed attempt ≡ some pods)
        × ((pod : PoolPod) × Won (env.updated attempt) pods pod
            × (name ≡ pod.name)
            × (volume ≡ claim_name pod.volumes)))
Claims env first left claim_failed = Unit
Claims env first left no_pod =
    ((a : ℕ) → first ≤ a → a < first + left → LostRaces env a)
    ⊎ ((a : ℕ) × (first ≤ a) × (a < first + left) × NoneReady env a)

later-Claims :
    (env : ClaimEnv) (first left : ℕ) (c : Claimed)
    → LostRaces env first
    → Claims env (first + 1) left c
    → Claims env first (suc left) c
later-Claims env first left (claimed name volume) lost (attempt, low, high, rest) =
    (attempt, omega arith, omega arith, rest)
later-Claims env first left claim_failed lost t = tt
later-Claims env first left no_pod lost (inr (a, low, high, quiet)) =
    inr (a, omega arith, omega arith, quiet)
later-Claims env first left no_pod lost (inl all) = inl (λ a low high. elim (dec_lt first a) [
  | yes later ↦ all a (omega arith) (omega arith)
  | no here ↦ let same : first ≡ a = omega arith in subst (LostRaces env) same lost
])

walked-Claims :
    (env : ClaimEnv) (first left : ℕ) (pods : List PoolPod) (w : Walk) (again : Claimed)
    → env.listed first ≡ some pods
    → walk (env.updated first) pods false ≡ w
    → Walks (env.updated first) pods false w
    → Claims env (first + 1) left again
    → Claims env first (suc left) (after_walk w again)
walked-Claims env first left pods (taken pod) again l e own further =
    (first, omega arith, omega arith, (pods, l, (pod, own, refl, refl)))
walked-Claims env first left pods stopped again l e t further = tt
walked-Claims env first left pods (walked false) again l e quiet further =
    inr (first, omega arith, omega arith, (pods, l, (quiet refl).1))
walked-Claims env first left pods (walked true) again l e quiet further =
    later-Claims env first left again (pods, l, e) further

attempted-Claims :
    (env : ClaimEnv) (first left : ℕ) (listed : Option (List PoolPod)) (again : Claimed)
    → env.listed first ≡ listed
    → Claims env (first + 1) left again
    → Claims env first (suc left) (attempted listed (env.updated first) again)
attempted-Claims env first left none again l further = tt
attempted-Claims env first left (some pods) again l further =
    walked-Claims env first left pods (walk (env.updated first) pods false) again l refl
      (walk-Walks (env.updated first) pods false) further

claim_from-Claims :
    (env : ClaimEnv) (first left : ℕ) → Claims env first left (claim_from env first left)
unfolding claim_from
claim_from-Claims env first zero = inl (λ a low high. absurd (omega arith))
claim_from-Claims env first (suc left) =
    attempted-Claims env first left (env.listed first) (claim_from env (first + 1) left) refl
      (claim_from-Claims env (first + 1) left)

pub claim-Claims : (env : ClaimEnv) → Claims env 0 3 (claim env)
unfolding claim
claim-Claims env = claim_from-Claims env 0 claim_max_attempts
