-- ===== src/Reconcile/Isolation/Pods.antt =====
-- The last steps of reconcileCreating in pkg/controller/sandbox_controller.go, behind the network policy:
-- the pod is created or waited for.
use agenttier.Prelude.{String, Bool, true, false, [], ◌++◌, if◌then◌else◌, codes, inr, some}
use agenttier.Lifecycle.Phase.{running}
use agenttier.Prelude.Int.{pos}
use agenttier.Lifecycle.Timeouts.{default_requeue_delay}
use agenttier.Reconcile.Creating.{
  pod_name_of, pod_created, pod_started, await_pod, create_or_await_pod,
}
use agenttier.Reconcile.Handlers.{transition_to_error}
use agenttier.Reconcile.Pods.{Pod, pod_failed, has_phase, is_pod_ready, get_pod_failure_reason}
use agenttier.Reconcile.World.{
  update_status, create_pod, record_event, Verdict, ok, not_found, refused, Fetch, found, missing,
  unreachable, Env, Result, after, M, ◌>>◌, return, after_verdict, must, try_call, fetch_pod,
}
use agenttier.Reconcile.Isolation.{
  Grows, Good, bind-Grows, verdict-Grows, must-Grows, try-Grows, set-Grows,
  transition_to_error-Grows,
}

module _ (env : Env) where
  pod_created-Grows : (name : String) (v : Verdict) → Grows env (pod_created env name v)
  pod_created-Grows name ok =
      set-Grows env (λ s. record s { pod_name = name })
        (must env update_status >> return (after (pos 1000000000)))
        (must-Grows env update_status (return (after (pos 1000000000))) (λ w i. i))
  pod_created-Grows name not_found = transition_to_error-Grows env (codes "Pod creation failed")
  pod_created-Grows name refused = transition_to_error-Grows env (codes "Pod creation failed")

  -- Running, as both ways to it report it.
  unfoldable pub running_calls : M Result
  running_calls =
      must env update_status
      >> (try_call env (record_event "Running") >> return (after default_requeue_delay))

  pub running_calls-Grows : Grows env running_calls
  unfolding running_calls
  running_calls-Grows =
      must-Grows env update_status
        (try_call env (record_event "Running") >> return (after default_requeue_delay))
        (try-Grows env (record_event "Running") (return (after default_requeue_delay)) (λ w i. i))

  ready_or_failed-Grows :
      (ready bad : Bool) (a b c : M Result)
      → Grows env a
      → Grows env b
      → Grows env c
      → Grows env (if ready then a else (if bad then b else c))
  ready_or_failed-Grows true bad a b c ga gb gc = ga
  ready_or_failed-Grows false true a b c ga gb gc = gb
  ready_or_failed-Grows false false a b c ga gb gc = gc

  pod_started-Grows : (pod : Pod) → Grows env (pod_started env pod)
  unfolding running_calls
  pod_started-Grows pod w i =
      running_calls-Grows
        (record w {
          sandbox = record (w.sandbox) {
            status = record (w.sandbox.status) {
              phase = running;
              pod_name = pod.name;
              started_at = some (env.now w.log);
              last_activity = some (env.now w.log);
              message = [];
            };
          };
        })
        i

  await_pod-Grows : (name : String) (answer : Fetch Pod) → Grows env (await_pod env name answer)
  await_pod-Grows name missing w i =
      let v = env.verdict w.log (create_pod name) in
      pod_created-Grows name v (after_verdict v (create_pod name) w)
        (verdict-Grows env v (create_pod name) w i)
  await_pod-Grows name unreachable w i = i
  await_pod-Grows name (found pod) w i =
      ready_or_failed-Grows (is_pod_ready pod) (has_phase pod.phase pod_failed)
        (pod_started env pod)
        (transition_to_error env (codes "Pod failed: " ++ get_pod_failure_reason pod))
        (return (after (pos 1000000000))) (pod_started-Grows pod)
        (transition_to_error-Grows env (codes "Pod failed: " ++ get_pod_failure_reason pod))
        (λ w' i'. i') w i

  pub create_or_await_pod-Grows : Grows env (create_or_await_pod env)
  unfolding create_or_await_pod
  create_or_await_pod-Grows w =
      let name = pod_name_of w.sandbox.name in
      bind-Grows env (fetch_pod env name) (await_pod env name) (λ w' i. inr i)
        (await_pod-Grows name) w

  pub if_Good :
      (b : Bool) (m k : M Result) → Good env m → Good env k → Good env (if b then m else k)
  if_Good true m k gm gk = gm
  if_Good false m k gm gk = gk
