-- ===== src/Reconcile/Stopping.antt =====
-- When a running sandbox is stopped, and what a stop keeps.
use agenttier.Prelude.{
  ℕ, String, Bool, true, false, Option, none, some, List, [], ◌∷◌, any, ◌≡◌, ◌≢◌, refl, ◌⊎◌, inl,
  inr, arith, eq_iff, eq_refl, str_eq, Bool-cases, Text, codes,
}
use agenttier.Lifecycle.Phase.{running, stopped, error}
use agenttier.Reconcile.Pods.{Pod, pod_succeeded, pod_failed, has_phase, get_pod_failure_reason}
use agenttier.Reconcile.World.{
  Sandbox, Call, update_object, get_pod, delete_pod, delete_pvc, ok, refused, found, missing,
  unreachable, Fetch, Env, World, no_requeue, done, failed,
}
use agenttier.Reconcile.Handlers.{
  stopped_status, stop_sandbox, snapshot_if_enabled, delete_pod_of, finish_stop, passed_limit,
  is_stop, check_timeouts, check_pod, transition_to_error, restart_or_give_up,
  handle_infrastructure_failure, reconcile_running,
}

-- A reconcile begins with a fresh copy of the sandbox.
abbrev pub start : Sandbox → World
start sb = record { sandbox = sb; stored = sb; log = [] }

abbrev pub deletes_pod : String → Call → Bool
deletes_pod name (delete_pod p) = str_eq p name
deletes_pod name _ = false

abbrev pub deletes_volume : Call → Bool
deletes_volume (delete_pvc p) = true
deletes_volume _ = false

-- What a step that writes no status keeps: the sandbox in memory, the stored one, and the volumes.
abbrev Keeps : World → World → Type 0
Keeps w v =
    (v.sandbox ≡ w.sandbox)
    × (v.stored ≡ w.stored)
    × (any deletes_volume v.log ≡ any deletes_volume w.log)

snapshot-Keeps :
    (env : Env) (sb : Sandbox) (w : World)
    → let out = snapshot_if_enabled env sb w in (out.0 ≡ done tt) × Keeps w out.1
unfolding snapshot_if_enabled
snapshot-Keeps env sb w = ground arith

delete_pod-Keeps :
    (env : Env) (sb : Sandbox) (w : World)
    → let out = delete_pod_of env sb w in
      (((out.0 ≡ done tt)
          × (sb.status.pod_name ≢ "" → any (deletes_pod sb.status.pod_name) out.1.log ≡ true))
        ⊎ (out.0 ≡ failed))
      × Keeps w out.1
unfolding delete_pod_of
delete_pod-Keeps env sb w = ground (arith, eq_iff sb.status.pod_name "", eq_refl sb.status.pod_name)

finish_stop_lem :
    (env : Env) (reason : Text) (name : String) (w : World)
    → let out = finish_stop env reason w in
      (((out.0 ≡ done no_requeue)
          × (out.1.stored ≡ record (w.stored) { status = stopped_status reason w.sandbox.status }))
        ⊎ ((out.0 ≡ failed) × (out.1.stored ≡ w.stored)))
      × (any (deletes_pod name) w.log ≡ true → any (deletes_pod name) out.1.log ≡ true)
      × (any deletes_volume out.1.log ≡ any deletes_volume w.log)
unfolding finish_stop
finish_stop_lem env reason name w = ground arith

pub stop_from :
    (env : Env) (reason : Text) (w : World)
    → let out = stop_sandbox env reason w in
      (((out.0 ≡ done no_requeue)
          × (out.1.stored ≡ record (w.stored) { status = stopped_status reason w.sandbox.status })
          × (w.sandbox.status.pod_name ≢ ""
              → any (deletes_pod w.sandbox.status.pod_name) out.1.log ≡ true))
        ⊎ ((out.0 ≡ failed) × (out.1.stored ≡ w.stored)))
      × (any deletes_volume out.1.log ≡ any deletes_volume w.log)
unfolding stop_sandbox
stop_from env reason w =
    let v = (snapshot_if_enabled env w.sandbox w).1 in
    ground (
      arith,
      snapshot-Keeps env w.sandbox w,
      delete_pod-Keeps env w.sandbox v,
      finish_stop_lem env reason w.sandbox.status.pod_name (delete_pod_of env w.sandbox v).1,
    )

-- A stop that succeeds leaves the stored sandbox Stopped with the reason, with no pod and no start
-- time and all else as it was, and has asked for the deletion of the pod if there was one; a stop
-- that fails leaves what is stored. No stop deletes a volume.
pub stop_sandbox_lem :
    (env : Env) (reason : Text) (sb : Sandbox)
    → let out = stop_sandbox env reason (start sb) in
      (((out.0 ≡ done no_requeue)
          × (out.1.stored ≡ record sb { status = stopped_status reason sb.status })
          × (sb.status.pod_name ≢ "" → any (deletes_pod sb.status.pod_name) out.1.log ≡ true))
        ⊎ ((out.0 ≡ failed) × (out.1.stored ≡ sb)))
      × (any deletes_volume out.1.log ≡ false)
stop_sandbox_lem env reason sb = stop_from env reason (start sb)

-- A limit of the sandbox that has passed at the time `now`.
abbrev pub IsDue : ℕ → Sandbox → Type 0
IsDue now sb =
    (passed_limit now sb.idle_timeout sb.status.last_activity ≡ true)
    ⊎ (passed_limit now sb.timeout sb.status.started_at ≡ true)

check_timeouts-IsDue :
    (env : Env) (pod : Pod) (w : World)
    → w.stored.status.phase ≡ running
    → (check_timeouts env pod w).1.stored.status.phase ≡ stopped
    → w.sandbox.status.phase ≡ running
    → IsDue (env.now w.log) w.sandbox
unfolding check_timeouts
check_timeouts-IsDue env pod w stored h r = ground arith

transition-phase :
    (env : Env) (message : Text) (w : World)
    → let out = transition_to_error env message w in
      (out.1.stored.status.phase ≡ error) ⊎ (out.1.stored ≡ w.stored)
unfolding transition_to_error
transition-phase env message w = ground arith

failure-phase :
    (env : Env) (reason : Text) (pod : Option Pod) (w : World)
    → let out = handle_infrastructure_failure env reason pod w in
      (out.1.stored.status.phase ≡ error) ⊎ (out.1.stored.status.phase ≡ w.stored.status.phase)
unfolding handle_infrastructure_failure transition_to_error restart_or_give_up
failure-phase env reason pod w = ground arith

-- Why a running sandbox may be stopped: the user asked for it, its pod has completed, or a limit has
-- passed by the clock that the reconcile reads.
pub data StopCause (env : Env) (sb : Sandbox) : Type 0 where
  requested : is_stop sb.action ≡ true → StopCause env sb
  completed :
      (pod : Pod)
      → env.find_pod [] sb.status.pod_name ≡ found pod
      → pod.phase ≡ pod_succeeded
      → StopCause env sb
  due : IsDue (env.now (get_pod sb.status.pod_name ∷ [])) sb → StopCause env sb

-- The world once the pod has been asked for.
abbrev looked : Sandbox → World
looked sb = record { sandbox = sb; stored = sb; log = get_pod sb.status.pod_name ∷ [] }

checked_stop :
    (env : Env) (sb : Sandbox) (answer : Fetch Pod)
    → env.find_pod [] sb.status.pod_name ≡ answer
    → sb.status.phase ≡ running
    → (check_pod env answer (looked sb)).1.stored.status.phase ≡ stopped
    → StopCause env sb
checked_stop env sb missing e r h =
    absurd
      (ground (arith, failure-phase env (codes "Pod disappeared unexpectedly") none (looked sb)))
checked_stop env sb unreachable e r h = absurd (ground arith)
checked_stop env sb (found pod) e r h = elim (Bool-cases (has_phase pod.phase pod_failed)) [
  | inl failing ↦
      absurd (ground (arith, failure-phase env (get_pod_failure_reason pod) (some pod) (looked sb)))
  | inr fine ↦ elim (Bool-cases (has_phase pod.phase pod_succeeded)) [
    | inl over ↦ completed pod e (ground arith)
    | inr on ↦ due (check_timeouts-IsDue env pod (looked sb) r (ground arith) r)
  ]
]

-- Reconciling a running sandbox stops it only if the user asked for it, its pod has completed, or an
-- idle or total limit has passed by the clock that the reconcile reads.
pub reconcile_running-StopCause :
    (env : Env) (sb : Sandbox)
    → sb.status.phase ≡ running
    → (reconcile_running env (start sb)).1.stored.status.phase ≡ stopped
    → StopCause env sb
unfolding reconcile_running
reconcile_running-StopCause env sb r h = elim (Bool-cases (str_eq sb.status.pod_name "")) [
  | inl unnamed ↦
      absurd (
        ground (arith, transition-phase env (codes "Pod name not set in Running state") (start sb)))
  | inr named ↦ elim (Bool-cases (is_stop sb.action)) [
    | inl asked ↦ requested asked
    | inr quiet ↦ checked_stop env sb (env.find_pod [] sb.status.pod_name) refl r (ground arith)
  ]
]

refused_delete :
    (env : Env) (sb : Sandbox) (w : World)
    → sb.status.pod_name ≢ ""
    → env.verdict w.log (delete_pod sb.status.pod_name) ≡ refused
    → let out = delete_pod_of env sb w in (out.0 ≡ failed) × (out.1.stored ≡ w.stored)
unfolding delete_pod_of
refused_delete env sb w named down = ground (arith, eq_iff sb.status.pod_name "")

refused_stop :
    (env : Env) (reason : Text) (w : World)
    → w.sandbox.status.pod_name ≢ ""
    → ((log : List Call) → env.verdict log (delete_pod w.sandbox.status.pod_name) ≡ refused)
    → let out = stop_sandbox env reason w in (out.0 ≡ failed) × (out.1.stored ≡ w.stored)
unfolding stop_sandbox
refused_stop env reason w named down =
    let v = (snapshot_if_enabled env w.sandbox w).1 in
    ground
      (arith, snapshot-Keeps env w.sandbox w, refused_delete env w.sandbox v named (down v.log))

-- The world once the annotation has been taken off.
abbrev unannotated : Sandbox → World
unannotated sb = record {
  sandbox = record sb { action = none };
  stored = record sb { action = none };
  log = update_object ∷ [];
}

-- A stop that the user asked for is lost if the pod cannot be deleted: once the annotation is off
-- the stored sandbox and the deletion is refused, the reconcile fails with the sandbox still
-- running and no request left to retry.
pub stop_request_lost :
    (env : Env) (sb : Sandbox)
    → sb.status.pod_name ≢ ""
    → is_stop sb.action ≡ true
    → ((log : List Call) → env.verdict log update_object ≡ ok)
    → ((log : List Call) → env.verdict log (delete_pod sb.status.pod_name) ≡ refused)
    → let out = reconcile_running env (start sb) in
      (out.0 ≡ failed) × (out.1.stored ≡ record sb { action = none })
unfolding reconcile_running
stop_request_lost env sb named asked up down = ground (
  arith,
  eq_iff sb.status.pod_name "",
  up [],
  refused_stop env (codes "User requested stop") (unannotated sb) named down,
)
