-- ===== src/WarmPool/Tests.antt =====
-- The theorems on the warm pool at concrete inputs.
use agenttier.Prelude.{
  ℕ, zero, suc, ◌≤◌, ◌<◌, String, Bool, true, false, List, In, subst, ◌∙◌, ◌&&◌, Option, none, some,
  [], ◌∷◌, ◌≡◌, ◌≢◌, refl, sym, arith, inl, inr, if◌then◌else◌, ◌==◌, str_eq, eq_iff, Bool-cases,
}
use agenttier.Reconcile.Pods.{pod_running}
use agenttier.WarmPool.Pods.{PoolPod, is_pod_ready, claim_name, unlabelled}
use agenttier.WarmPool.Claim.{Answer, won, conflict, ClaimEnv, claimed, claim}
use agenttier.WarmPool.Race.{ApiServer, Optimistic, Event, updated, wrote, Claimers, claim_once}

abbrev ready_pod : PoolPod
ready_pod = record {
  name = "pool-base-1";
  pooled = true;
  template = "base";
  phase = pod_running;
  conditions = record { is_ready_type = true; is_true = true } ∷ [];
  volumes = some "pool-base-1-pvc" ∷ [];
  version = 4;
}

-- A server with one object, which keeps its revision.
record Single : Type 0 where
  object : PoolPod
  revision : ℕ

abbrev stored_at : Single → String → Option PoolPod
stored_at s name =
    if str_eq name s.object.name then some (record s.object { version = s.revision }) else none

abbrev written : Single → PoolPod → Single
written s copy = record { object = copy; revision = suc s.revision }

abbrev answered : Single → PoolPod → Answer × Single
answered s copy =
    if str_eq copy.name s.object.name && copy.version == s.revision
    then (won, written s copy)
    else (conflict, s)

abbrev one_object : ApiServer
one_object = record {
  State = Single;
  stored = stored_at;
  revision = λ (s : Single). s.revision;
  update = answered;
}

one_object-le :
    (s : Single) (name : String) (pod : PoolPod)
    → stored_at s name ≡ some pod
    → pod.version ≤ s.revision
one_object-le s name pod h = ground arith

one_object-refused :
    (s s' : Single) (copy : PoolPod) (a : Answer) → answered s copy ≡ (a, s') → a ≢ won → s' ≡ s
one_object-refused s s' copy a h lost =
    elim (Bool-cases (str_eq copy.name s.object.name && copy.version == s.revision)) [
      | inl same ↦ absurd (lost (ground arith))
      | inr other ↦ ground arith
    ]

one_object-accepted :
    (s s' : Single) (copy : PoolPod)
    → answered s copy ≡ (won, s')
    → ((old : PoolPod) × (stored_at s copy.name ≡ some old) × (old.version ≡ copy.version))
      × ((new : PoolPod) × (stored_at s' copy.name ≡ some new)
          × (new.pooled ≡ copy.pooled)
          × (s.revision < new.version))
      × ((name : String) → name ≢ copy.name → stored_at s' name ≡ stored_at s name)
one_object-accepted s s' copy h =
    elim (Bool-cases (str_eq copy.name s.object.name && copy.version == s.revision)) [
      | inl same ↦
          let after : written s copy ≡ s' = ground arith in
          let its_name : copy.name ≡ s.object.name =
            ground (arith, eq_iff copy.name s.object.name) in
          let at_revision : copy.version ≡ s.revision =
            ground (arith, eq_iff copy.name s.object.name) in
          let here : str_eq copy.name s.object.name ≡ true =
            (eq_iff copy.name s.object.name).1 its_name in
          rw (sym after) (
            (record s.object { version = s.revision }, rw here refl, sym at_revision),
            (
              record copy { version = suc s.revision },
              rw ((eq_iff copy.name copy.name).1 refl) refl,
              refl,
              omega arith,
            ),
            λ name other. ground (arith, eq_iff name copy.name, eq_iff name s.object.name),
          )
      | inr other ↦ absurd (ground arith)
    ]

one_object-Optimistic : Optimistic one_object
one_object-Optimistic = record {
  version_le = one_object-le;
  accepted = one_object-accepted;
  refused = one_object-refused;
}

abbrev pool_server : Single
pool_server = record { object = ready_pod; revision = 4 }

-- The pod is claimed at the first place, by claimer 1, and nothing happens afterwards.
abbrev history : ℕ → Single
history zero = pool_server
history (suc i) = written pool_server (unlabelled ready_pod)

history_events : (i : ℕ) → Event one_object history i
history_events zero = updated ready_pod won refl
history_events (suc i) = wrote (omega arith) (λ name new at. inl at)

abbrev loser : ClaimEnv
loser = record { listed = λ a. some (ready_pod ∷ []); updated = λ a copy. conflict }

abbrev winner : ClaimEnv
winner = record {
  listed = λ a. some (ready_pod ∷ []);
  updated = λ a copy. if copy.version == 4 then won else conflict;
}

abbrev env_of : ℕ → ClaimEnv
env_of c = if c == 1 then winner else loser

only_winner : (c a : ℕ) (p : PoolPod) → (env_of c).updated a (unlabelled p) ≡ won → c ≡ 1
only_winner c a p u = elim (Bool-cases (c == 1)) [
  | inl first ↦ ground (arith, first)
  | inr other ↦
      absurd
        (loses (subst (λ b. (if b then winner else loser).updated a (unlabelled p) ≡ won) other u))
]
  where
    loses : conflict ≡ won → ⊥
    loses e = cc

sole_list : (c a : ℕ) → (env_of c).listed a ≡ some (ready_pod ∷ [])
sole_list c a = either (c == 1)
  where
    either : (b : Bool) → (if b then winner else loser).listed a ≡ some (ready_pod ∷ [])
    either true = refl
    either false = refl

sole_pod :
    (c a : ℕ) (pods : List PoolPod) (p : PoolPod)
    → (env_of c).listed a ≡ some pods
    → In p pods
    → p ≡ ready_pod
sole_pod c a pods p is m =
    let all : ready_pod ∷ [] ≡ pods = same (sym (sole_list c a) ∙ is) in
    one (subst (In p) (sym all) m)
  where
    same : {x y : List PoolPod} → some x ≡ some y → x ≡ y
    same h = cc

    one : In p (ready_pod ∷ []) → p ≡ ready_pod
    one (inl e) = e
    one (inr x) = absurd x

abbrev two_claimers : Claimers one_object history
two_claimers = record {
  env = env_of;
  listed_at = λ c a. 0;
  updated_at = λ c a p. 0;
  lists = λ c a pods p is m. rw (sole_pod c a pods p is m) (refl, refl);
  updates = λ c a pods p is m u. rw (sole_pod c a pods p is m) refl;
  apart = λ c d a b p q u v e. only_winner c a p u ∙ sym (only_winner d b q v);
}

winner_claims : claim (two_claimers.env 1) ≡ claimed "pool-base-1" "pool-base-1-pvc"
unfolding claim is_pod_ready claim_name
winner_claims = refl

claim_once_example : claim (two_claimers.env 2) ≢ claimed "pool-base-1" "pool-base-1-pvc"
claim_once_example =
    claim_once one_object history one_object-Optimistic history_events two_claimers 1 2
      "pool-base-1" "pool-base-1-pvc" "pool-base-1-pvc" (omega arith) winner_claims

abbrev claims_one : ClaimEnv
claims_one = record {
  listed = λ a. some (ready_pod ∷ []);
  updated = λ a pod. if a == 0 then conflict else won;
}
