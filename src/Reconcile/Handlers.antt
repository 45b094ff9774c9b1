-- ===== src/Reconcile/Handlers.antt =====
-- The handlers of the phases Running, Stopped and Error of pkg/controller/sandbox_controller.go.
-- `fmt.Sprintf` of a duration and of a number are the environment's.
use agenttier.Prelude.{ℕ, ◌+◌, String, Bool, false, not, ◌&&◌, Option, none, some, [], ◌++◌}
use agenttier.Prelude.{Text, codes, contains, if◌then◌else◌, ltb, leb, str_eq}
use agenttier.Prelude.Int.{ℤ, pos, ◌+ℤ◌, ◌-ℤ◌, ltb_ℤ, leb_ℤ}
use agenttier.Lifecycle.Phase.{creating, stopped, error}
use agenttier.Lifecycle.Timeouts.{second, default_requeue_delay, since}
use agenttier.Lifecycle.Backoff.{calculate_backoff_delay}
use agenttier.Reconcile.Pods.{
  Pod, pod_succeeded, pod_failed, has_phase, is_pod_ready, get_pod_failure_reason,
  is_infrastructure_failure,
}
use agenttier.Reconcile.World.{
  Status, Sandbox, update_status, update_object, create_snapshot, notify, delete_pod, record_event,
  Verdict, ok, Fetch, found, missing, unreachable, Env, Result, no_requeue, requeue_now, after,
  done, M, ◌>>=◌, ◌>>◌, return, fail, set_status, set_sandbox, after_verdict, must, must_be_gone,
  try_call, read_clock, fetch_pod,
}

abbrev pub max_restart_count : ℕ
max_restart_count = 5

-- RestartCountResetWindow, five minutes
abbrev pub restart_count_reset_window : ℤ
restart_count_reset_window = pos 300000000000

-- What reconcileError looks for in the message.
abbrev pub restart_marker : Text
restart_marker = codes "before restart attempt"

-- The sandbox in memory.
abbrev pub the_sandbox : M Sandbox
the_sandbox w = (done w.sandbox, w)

-- A positive limit that an instant, if there is one, has passed.
abbrev pub passed_limit : ℕ → Option ℤ → Option ℕ → Bool
passed_limit now none t = false
passed_limit now (some limit) none = false
passed_limit now (some limit) (some t) = ltb_ℤ (pos 0) limit && leb_ℤ limit (since now t)

-- The remaining time lowers the requeue delay found so far.
unfoldable pub lower_requeue : ℕ → Option ℤ → Option ℕ → ℤ → ℤ
unfolding ◌-ℤ◌ ◌+ℤ◌
lower_requeue now none t delay = delay
lower_requeue now (some limit) none delay = delay
lower_requeue now (some limit) (some t) delay =
    let remaining = limit -ℤ since now t in
    if ltb_ℤ (pos 0) limit && (ltb_ℤ (pos 0) remaining && ltb_ℤ remaining delay)
    then remaining +ℤ second
    else delay

abbrev pub long_since : ℕ → Option ℕ → Bool
long_since now none = false
long_since now (some t) = leb_ℤ restart_count_reset_window (since now t)

-- `RestartCountReset`: the pod has been ready for the whole window.
abbrev pub is_stable : ℕ → Sandbox → Pod → Bool
is_stable now sb pod =
    ltb 0 sb.status.restart_count && (long_since now sb.status.started_at && is_pod_ready pod)

abbrev flag_of : Option Bool → Bool
flag_of none = false
flag_of (some b) = b

abbrev event_of_snapshot : Verdict → String
event_of_snapshot ok = "Snapshotted"
event_of_snapshot _ = "SnapshotFailed"

abbrev pub stopped_status : Text → Status → Status
stopped_status reason s = record s {
  phase = stopped;
  pod_name = "";
  started_at = none;
  message = reason;
}

abbrev pub is_stop : Option String → Bool
is_stop none = false
is_stop (some action) = str_eq action "stop"

unfoldable pub reconcile_stopped : M Result
reconcile_stopped = return no_requeue

-- How much of the backoff is left, if some is.
abbrev pub backoff_left : ℕ → Status → Option ℤ
backoff_left now s = elim s.started_at [
  | none ↦ none
  | some t ↦
      let backoff = calculate_backoff_delay s.restart_count in
      if ltb_ℤ (since now t) backoff then some (backoff -ℤ since now t) else none
]

module _ (env : Env) where
  unfoldable pub transition_to_error : Text → M Result
  transition_to_error message = do
    set_status (λ s. record s { phase = error; message = message })
    must env update_status
    try_call env (record_event "Error")
    try_call env notify
    return no_requeue

  abbrev pub waiting_message : Text → ℕ → Text
  waiting_message reason count =
      codes "Pod failed ("
      ++ (reason
          ++ (codes "), waiting "
              ++ (env.show_duration (calculate_backoff_delay count)
                  ++ (codes " "
                      ++ (restart_marker
                          ++ (codes " "
                              ++ (env.show_int count
                                  ++ (codes "/" ++ env.show_int max_restart_count))))))))

  abbrev limit_message : Text → Text
  limit_message reason =
      codes "Restart limit exceeded ("
      ++ (env.show_int max_restart_count ++ (codes " attempts): " ++ reason))

  -- handleInfrastructureFailure once the failure is the infrastructure's; the count has gone up.
  unfoldable pub restart_or_give_up : Text → M Result
  unfolding transition_to_error
  restart_or_give_up reason = do
    set_status (λ s. record s { restart_count = s.restart_count + 1 })
    sb ← the_sandbox
    if leb max_restart_count sb.status.restart_count
        then transition_to_error (limit_message reason)
        else (do
          try_call env (record_event "AutoRestarted")
          set_status (λ s. record s {
            phase = error;
            pod_name = "";
            message = waiting_message reason s.restart_count;
          })
          must env update_status
          return requeue_now)

  unfoldable pub handle_infrastructure_failure : Text → Option Pod → M Result
  unfolding restart_or_give_up transition_to_error
  handle_infrastructure_failure reason pod =
      if not (is_infrastructure_failure pod)
      then (do
        try_call env (record_event "ApplicationError")
        transition_to_error (codes "Pod failed: " ++ reason))
      else restart_or_give_up reason

  -- snapshotOnStopEnabled: the sandbox's storage wins over its template's.
  abbrev pub snapshot_on_stop_enabled : Option Bool → Bool
  snapshot_on_stop_enabled none = flag_of env.resolved_snapshot
  snapshot_on_stop_enabled (some flag) = flag

  -- A snapshot that fails is an event, and does not block the stop.
  abbrev take_snapshot : M (Unit {0})
  take_snapshot w =
      let v = env.verdict w.log create_snapshot in
      try_call env (record_event (event_of_snapshot v)) (after_verdict v create_snapshot w)

  unfoldable pub snapshot_if_enabled : Sandbox → M (Unit {0})
  snapshot_if_enabled sb =
      if not (str_eq sb.status.pvc_name "") && snapshot_on_stop_enabled sb.snapshot
      then take_snapshot
      else return tt

  unfoldable pub delete_pod_of : Sandbox → M (Unit {0})
  delete_pod_of sb =
      if str_eq sb.status.pod_name ""
      then return tt
      else must_be_gone env (delete_pod sb.status.pod_name)

  -- stopSandbox once the pod is gone.
  unfoldable pub finish_stop : Text → M Result
  finish_stop reason = do
    set_status (stopped_status reason)
    must env update_status
    try_call env (record_event "Stopped")
    try_call env notify
    return no_requeue

  unfoldable pub stop_sandbox : Text → M Result
  stop_sandbox reason = do
    sb ← the_sandbox
    snapshot_if_enabled sb
    delete_pod_of sb
    finish_stop reason

  -- The last part of reconcileRunning, over a pod that neither failed nor completed.
  unfoldable pub check_timeouts : Pod → M Result
  unfolding lower_requeue
  check_timeouts pod = do
    sb ← the_sandbox
    now ← read_clock env
    if is_stable now sb pod
        then (do
          try_call env (record_event "RestartCountReset")
          set_status (λ s. record s { restart_count = 0 })
          must env update_status
          return requeue_now)
        else (if passed_limit now sb.idle_timeout sb.status.last_activity
            then (do
              try_call env (record_event "IdleTimeout")
              stop_sandbox (codes "Idle timeout exceeded"))
            else (if passed_limit now sb.timeout sb.status.started_at
                then (do
                  try_call env (record_event "MaxRuntimeReached")
                  stop_sandbox (codes "Max runtime exceeded"))
                else return (
                    after (
                      lower_requeue now sb.timeout sb.status.started_at (
                        lower_requeue now sb.idle_timeout sb.status.last_activity
                          default_requeue_delay)))))

  abbrev pub check_pod : Fetch Pod → M Result
  check_pod missing = handle_infrastructure_failure (codes "Pod disappeared unexpectedly") none
  check_pod unreachable = fail
  check_pod (found pod) =
      if has_phase pod.phase pod_failed
      then handle_infrastructure_failure (get_pod_failure_reason pod) (some pod)
      else (if has_phase pod.phase pod_succeeded
          then stop_sandbox (codes "Sandbox process completed (pod exited 0)")
          else check_timeouts pod)

  unfoldable pub reconcile_running : M Result
  reconcile_running = do
    sb ← the_sandbox
    if str_eq sb.status.pod_name ""
        then transition_to_error (codes "Pod name not set in Running state")
        else (if is_stop sb.action
            then (do
              set_sandbox (λ s. record s { action = none })
              must env update_object
              stop_sandbox (codes "User requested stop"))
            else (do pod ← fetch_pod env sb.status.pod_name; check_pod pod))

  abbrev wait_or_restart : Option ℤ → M Result
  wait_or_restart (some left) = return (after left)
  wait_or_restart none = do
    try_call env (record_event "Restarting")
    set_status (λ s. record s { phase = creating; message = [] })
    must env update_status
    return requeue_now

  unfoldable pub reconcile_error : M Result
  reconcile_error = do
    sb ← the_sandbox
    if leb max_restart_count sb.status.restart_count
        then return no_requeue
        else (if not (contains sb.status.message restart_marker)
            then return (after default_requeue_delay)
            else (do now ← read_clock env; wait_or_restart (backoff_left now sb.status)))
