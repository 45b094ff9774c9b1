-- ===== src/Reconcile/Creating.antt =====
-- The last two steps of reconcileCreating, once template, volume, secrets and network policy are in
-- place: create the pod, or wait for the one that is there. PodBuilder.Build names it after the
-- sandbox.
use Prim.Native.String
use agenttier.Prelude.{String, ◌++◌, codes, if◌then◌else◌, some, []}
use agenttier.Prelude.Int.{pos}
use agenttier.Lifecycle.Phase.{running}
use agenttier.Lifecycle.Timeouts.{default_requeue_delay}
use agenttier.Reconcile.Pods.{Pod, pod_failed, has_phase, is_pod_ready, get_pod_failure_reason}
use agenttier.Reconcile.World.{
  update_status, create_pod, record_event, Verdict, ok, Fetch, found, missing, unreachable, Env,
  Result, after, M, ◌>>=◌, ◌>>◌, return, fail, set_status, after_verdict, must, try_call,
  read_clock, fetch_pod,
}
use agenttier.Reconcile.Handlers.{transition_to_error}

abbrev pub pod_name_of : String → String
pod_name_of name = String.◌++◌ name "-pod"

module _ (env : Env) where
  abbrev pub pod_created : String → Verdict → M Result
  pod_created name ok = do
    set_status (λ s. record s { pod_name = name })
    must env update_status
    return (after (pos 1000000000))
  pod_created name _ = transition_to_error env (codes "Pod creation failed")

  abbrev pub make_pod : String → M Result
  make_pod name w =
      let v = env.verdict w.log (create_pod name) in
      pod_created name v (after_verdict v (create_pod name) w)

  abbrev pub pod_started : Pod → M Result
  pod_started pod = do
    now ← read_clock env
    set_status (λ s. record s {
      phase = running;
      pod_name = pod.name;
      started_at = some now;
      last_activity = some now;
      message = [];
    })
    must env update_status
    try_call env (record_event "Running")
    return (after default_requeue_delay)

  abbrev pub await_pod : String → Fetch Pod → M Result
  await_pod name missing = make_pod name
  await_pod name unreachable = fail
  await_pod name (found pod) =
      if is_pod_ready pod
      then pod_started pod
      else (if has_phase pod.phase pod_failed
          then transition_to_error env (codes "Pod failed: " ++ get_pod_failure_reason pod)
          else return (after (pos 1000000000)))

  unfoldable pub create_or_await_pod : M Result
  unfolding transition_to_error
  create_or_await_pod w =
      let name = pod_name_of w.sandbox.name in (fetch_pod env name >>= await_pod name) w
