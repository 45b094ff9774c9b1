-- ===== src/Reconcile/Restarting.antt =====
-- Automatic restarts: the backoff, and what lets a sandbox restart.
pub mod Budget
pub mod Blocked
pub mod Refailing
use agenttier.Prelude.{
  ℕ, suc, ◌+◌, ◌≤◌, ◌<◌, leb, String, Bool, true, false, not, Option, none, some, List, [], ◌∷◌,
  ◌++◌, ◌≡◌, ◌≢◌, refl, sym, ap, subst, ◌⊎◌, inl, inr, arith, eq_iff, str_eq, Bool-cases,
  Option-cases, Text, codes, contains, contains-self_append, contains-append_right, if◌then◌else◌,
}
use agenttier.Prelude.Int.{ℤ, pos, ◌≤ℤ◌}
use agenttier.Lifecycle.Phase.{Phase, unset, creating, running, stopped, error}
use agenttier.Lifecycle.Timeouts.{since}
use agenttier.Lifecycle.Backoff.{calculate_backoff_delay}
use agenttier.Reconcile.Pods.{
  Pod, pod_failed, has_phase, is_pod_ready, get_pod_failure_reason, is_infrastructure_failure,
}
use agenttier.Reconcile.World.{
  Status, Sandbox, Call, update_status, Verdict, ok, Fetch, found, missing, unreachable, Env, World,
  get_pod, record_event, Result, no_requeue, requeue_now, Exit, done, failed,
}
use agenttier.Reconcile.Handlers.{
  max_restart_count, restart_marker, waiting_message, is_stop, check_pod, stop_sandbox,
  check_timeouts, transition_to_error, restart_or_give_up, handle_infrastructure_failure,
  reconcile_running, reconcile_error,
}
use agenttier.Reconcile.Creating.{pod_name_of, create_or_await_pod}
use agenttier.Reconcile.Stopping.{start}

-- A failed sandbox goes back to Creating only with restarts left, only if its message says that a
-- restart is due, and only once the backoff of its restart count has passed since it was started;
-- its restart count stays. Otherwise what is stored does not change.
pub reconcile_error_restarts :
    (env : Env) (sb : Sandbox)
    → let out = reconcile_error env (start sb) in
      (out.1.stored ≡ sb)
      ⊎ ((out.1.stored
            ≡ record sb { status = record (sb.status) { phase = creating; message = [] } })
          × (sb.status.restart_count < max_restart_count)
          × (contains sb.status.message restart_marker ≡ true)
          × ((t : ℕ)
              → sb.status.started_at ≡ some t
              → calculate_backoff_delay sb.status.restart_count ≤ℤ since (env.now []) t))
unfolding reconcile_error
reconcile_error_restarts env sb = ground arith

-- Once the restarts are used up, an error is for good.
exhausted_stays :
    (env : Env) (sb : Sandbox)
    → max_restart_count ≤ sb.status.restart_count
    → reconcile_error env (start sb) ≡ (done no_requeue, start sb)
unfolding reconcile_error
exhausted_stays env sb h = ground arith

marked :
    (env : Env) (reason : Text) (count : ℕ)
    → contains (waiting_message env reason count) restart_marker ≡ true
marked env reason count = contains-append_right (codes "Pod failed (") _ restart_marker (
    contains-append_right reason _ restart_marker (
      contains-append_right (codes "), waiting ") _ restart_marker (
        contains-append_right (env.show_duration (calculate_backoff_delay count)) _ restart_marker (
          contains-append_right (codes " ") _ restart_marker
            (contains-self_append restart_marker _)))))

-- A failure of the infrastructure, if it can be recorded: the restart count goes up by one, and the
-- sandbox is in Error, either with a message that lets it restart, no pod and a count below the
-- limit, or with the limit reached.
pub infrastructure_failure_lem :
    (env : Env) (reason : Text) (pod : Option Pod) (sb : Sandbox)
    → is_infrastructure_failure pod ≡ true
    → ((log : List Call) → env.verdict log update_status ≡ ok)
    → let out = handle_infrastructure_failure env reason pod (start sb) in
      let after = out.1.stored.status in
      (after.phase ≡ error)
      × (after.restart_count ≡ sb.status.restart_count + 1)
      × (((after.restart_count < max_restart_count)
            × (after.pod_name ≡ "")
            × (contains after.message restart_marker ≡ true)
            × (out.0 ≡ done requeue_now))
          ⊎ ((max_restart_count ≤ after.restart_count) × (out.0 ≡ done no_requeue)))
unfolding handle_infrastructure_failure restart_or_give_up transition_to_error
infrastructure_failure_lem env reason pod sb infra up =
    elim (Bool-cases (leb max_restart_count (sb.status.restart_count + 1))) [
      | inl spent ↦ ground (arith, up [])
      | inr fresh ↦ ground (
        arith,
        up (record_event "AutoRestarted" ∷ []),
        marked env reason (sb.status.restart_count + 1),
      )
    ]

-- A failed sandbox with restarts left and a message that says so does restart, once the backoff has
-- passed and the status can be written.
pub reconcile_error_restarts_due :
    (env : Env) (sb : Sandbox)
    → sb.status.restart_count < max_restart_count
    → contains sb.status.message restart_marker ≡ true
    → ((t : ℕ)
        → sb.status.started_at ≡ some t
        → calculate_backoff_delay sb.status.restart_count ≤ℤ since (env.now []) t)
    → ((log : List Call) → env.verdict log update_status ≡ ok)
    → let out = reconcile_error env (start sb) in
      (out.0 ≡ done requeue_now)
      × (out.1.stored
          ≡ record sb { status = record (sb.status) { phase = creating; message = [] } })
unfolding reconcile_error
reconcile_error_restarts_due env sb left marks elapsed writes =
    elim (Option-cases sb.status.started_at) [
      | inl never ↦ ground (arith, writes (record_event "Restarting" ∷ []))
      | inr (t, e) ↦ ground (arith, elapsed t e, writes (record_event "Restarting" ∷ []))
    ]
