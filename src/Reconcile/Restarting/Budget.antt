-- ===== src/Reconcile/Restarting/Budget.antt =====
-- The restart budget over any sequence of reconciles.
use agenttier.Prelude.{
  ℕ, ◌+◌, ◌≤◌, String, Option, none, some, [], ◌∷◌, ◌≡◌, ◌≢◌, refl, ap, ◌∙◌, ◌⊎◌, inl, inr, arith,
  Text, codes,
}
use agenttier.Lifecycle.Phase.{unset, creating, running, stopped, error}
use agenttier.Reconcile.Pods.{Pod, get_pod_failure_reason}
use agenttier.Reconcile.World.{
  Sandbox, update_object, Fetch, found, missing, unreachable, Env, World, get_pod, record_event,
  try_call, must,
}
use agenttier.Reconcile.Handlers.{
  max_restart_count, check_pod, stop_sandbox, check_timeouts, transition_to_error,
  restart_or_give_up, handle_infrastructure_failure, reconcile_running, reconcile_error,
  reconcile_stopped,
}
use agenttier.Reconcile.Stopping.{start, stop_from}
use agenttier.Reconcile.Restarting.{reconcile_error_restarts, exhausted_stays}

-- At most five restarts are counted, and the fifth is only ever counted in Error.
pub record InBudget (sb : Sandbox) : Type 0 where
  pub counted : sb.status.restart_count ≤ max_restart_count
  pub spent : sb.status.restart_count ≡ max_restart_count → sb.status.phase ≡ error

-- A handler leaves the count as it is or lowers it, or counts one restart and says Error.
abbrev CountsOne : ℕ → World → Type 0
CountsOne n v =
    (v.stored.status.restart_count ≤ n)
    ⊎ ((v.stored.status.restart_count ≡ n + 1) × (v.stored.status.phase ≡ error))

-- Memory and store agree on the count.
abbrev SameCount : ℕ → World → Type 0
SameCount n w = (w.sandbox.status.restart_count ≡ n) × (w.stored.status.restart_count ≡ n)

stop-CountsOne :
    (env : Env) (reason : Text) (n : ℕ) (w : World)
    → SameCount n w
    → CountsOne n (stop_sandbox env reason w).1
stop-CountsOne env reason n w h = ground (arith, stop_from env reason w)

transition-CountsOne :
    (env : Env) (message : Text) (n : ℕ) (w : World)
    → SameCount n w
    → CountsOne n (transition_to_error env message w).1
unfolding transition_to_error
transition-CountsOne env message n w h = ground arith

failure-CountsOne :
    (env : Env) (reason : Text) (pod : Option Pod) (n : ℕ) (w : World)
    → SameCount n w
    → CountsOne n (handle_infrastructure_failure env reason pod w).1
unfolding handle_infrastructure_failure restart_or_give_up transition_to_error
failure-CountsOne env reason pod n w h = ground arith

event-SameCount :
    (env : Env) (name : String) (n : ℕ) (w : World)
    → SameCount n w
    → SameCount n (try_call env (record_event name) w).1
event-SameCount env name n w h = ground arith

timeouts-CountsOne :
    (env : Env) (pod : Pod) (n : ℕ) (w : World)
    → SameCount n w
    → CountsOne n (check_timeouts env pod w).1
unfolding check_timeouts
timeouts-CountsOne env pod n w h =
    let idle = (try_call env (record_event "IdleTimeout") w).1 in
    let late = (try_call env (record_event "MaxRuntimeReached") w).1 in
    ground (
      arith,
      event-SameCount env "IdleTimeout" n w,
      event-SameCount env "MaxRuntimeReached" n w,
      stop-CountsOne env (codes "Idle timeout exceeded") n idle,
      stop-CountsOne env (codes "Max runtime exceeded") n late,
    )

pod-CountsOne :
    (env : Env) (answer : Fetch Pod) (n : ℕ) (w : World)
    → SameCount n w
    → CountsOne n (check_pod env answer w).1
pod-CountsOne env missing n w h =
    failure-CountsOne env (codes "Pod disappeared unexpectedly") none n w h
pod-CountsOne env unreachable n w h = ground arith
pod-CountsOne env (found pod) n w h = ground (
  arith,
  failure-CountsOne env (get_pod_failure_reason pod) (some pod) n w,
  stop-CountsOne env (codes "Sandbox process completed (pod exited 0)") n w,
  timeouts-CountsOne env pod n w,
)

-- The world once a pending stop has been taken off the sandbox in memory, and the outcome written.
abbrev unasked : Env → Sandbox → World
unasked env sb =
    (must env update_object
      (record { sandbox = record sb { action = none }; stored = sb; log = [] })).1

running-CountsOne :
    (env : Env) (sb : Sandbox)
    → CountsOne sb.status.restart_count (reconcile_running env (start sb)).1
unfolding reconcile_running
running-CountsOne env sb = ground (
  arith,
  transition-CountsOne env (codes "Pod name not set in Running state") sb.status.restart_count
      (start sb),
  stop-CountsOne env (codes "User requested stop") sb.status.restart_count (unasked env sb),
  pod-CountsOne env (env.find_pod [] sb.status.pod_name) sb.status.restart_count
      (record { sandbox = sb; stored = sb; log = get_pod sb.status.pod_name ∷ [] }),
)

-- A reconcile of the stored sandbox, in any environment. `provisioned` stands for reconcileCreating,
-- which never touches the restart count.
pub data Step (sb sb' : Sandbox) : Type 0 where
  provisioned :
      (sb.status.phase ≡ unset) ⊎ (sb.status.phase ≡ creating)
      → sb'.status.restart_count ≡ sb.status.restart_count
      → Step sb sb'
  ran :
      (env : Env)
      → sb.status.phase ≡ running
      → sb' ≡ (reconcile_running env (start sb)).1.stored
      → Step sb sb'
  rested : sb.status.phase ≡ stopped → sb' ≡ (reconcile_stopped (start sb)).1.stored → Step sb sb'
  retried :
      (env : Env)
      → sb.status.phase ≡ error
      → sb' ≡ (reconcile_error env (start sb)).1.stored
      → Step sb sb'

pub data Reach (sb : Sandbox) : Sandbox → Type 0 where
  here : Reach sb sb
  next : {t u : Sandbox} → Reach sb t → Step t u → Reach sb u

counted-InBudget :
    {sb sb' : Sandbox}
    → InBudget sb
    → sb.status.phase ≢ error
    → (sb'.status.restart_count ≤ sb.status.restart_count)
      ⊎ ((sb'.status.restart_count ≡ sb.status.restart_count + 1) × (sb'.status.phase ≡ error))
    → InBudget sb'
counted-InBudget b live c = record { counted = ground arith; spent = λ e. ground arith }

Step-InBudget : {sb sb' : Sandbox} → Step sb sb' → InBudget sb → InBudget sb'
unfolding reconcile_stopped
Step-InBudget (provisioned new same) b = counted-InBudget b (ground arith) (inl (omega arith))
Step-InBudget {sb} (ran env r e) b =
    counted-InBudget b (ground arith) (rw e (running-CountsOne env sb))
Step-InBudget (rested r e) b = rw e b
Step-InBudget {sb} (retried env r e) b = elim (reconcile_error_restarts env sb) [
  | inl same ↦ rw (e, same) b
  | inr restarted ↦
      rw (e, restarted.0) (record { counted = b.counted; spent = λ k. absurd (omega arith) })
]

-- Whatever the cluster answers, a sandbox that has never been restarted counts at most five restarts
-- in any sequence of reconciles, and once it counts the fifth it is in Error. A reconcile in phase
-- Creating is taken to be any change that keeps the count.
pub Reach-InBudget : {sb sb' : Sandbox} → Reach sb sb' → sb.status.restart_count ≡ 0 → InBudget sb'
Reach-InBudget here e = record { counted = omega arith; spent = λ k. absurd (omega arith) }
Reach-InBudget (next r s) e = Step-InBudget s (Reach-InBudget r e)

exhausted-Step :
    {sb sb' : Sandbox}
    → Step sb sb'
    → sb.status.phase ≡ error
    → max_restart_count ≤ sb.status.restart_count
    → sb' ≡ sb
exhausted-Step (provisioned new same) e h = absurd (ground arith)
exhausted-Step (ran env r eq) e h = absurd (ground arith)
exhausted-Step (rested r eq) e h = absurd (ground arith)
exhausted-Step {sb} (retried env r eq) e h =
    eq ∙ ap (λ out. out.1.stored) (exhausted_stays env sb h)

-- A sandbox in Error that has used up its restarts stays exactly as it is, however often it is
-- reconciled.
pub exhausted_absorbs :
    {sb sb' : Sandbox}
    → Reach sb sb'
    → sb.status.phase ≡ error
    → max_restart_count ≤ sb.status.restart_count
    → sb' ≡ sb
exhausted_absorbs here e h = refl
exhausted_absorbs (next r s) e h =
    let same = exhausted_absorbs r e h in exhausted-Step s (rw same e) (rw same h) ∙ same
