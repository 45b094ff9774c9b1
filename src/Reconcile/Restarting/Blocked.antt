-- ===== src/Reconcile/Restarting/Blocked.antt =====
-- A restart meets the pod that failed: nothing deletes it, and its successor has the same name.
use agenttier.Prelude.{
  ℕ, ◌+◌, ◌<◌, true, false, some, any, Option-cases, inl, inr, List, [], ◌∷◌, ◌++◌, ◌≡◌, ◌≢◌, refl,
  arith, eq_iff, codes,
}
use agenttier.Prelude.Int.{◌≤ℤ◌}
use agenttier.Lifecycle.Phase.{creating, error}
use agenttier.Lifecycle.Timeouts.{since}
use agenttier.Lifecycle.Backoff.{calculate_backoff_delay}
use agenttier.Reconcile.Pods.{Pod, pod_failed, get_pod_failure_reason, is_infrastructure_failure}
use agenttier.Reconcile.World.{Sandbox, Call, update_status, get_pod, record_event, ok, found, Env}
use agenttier.Reconcile.Handlers.{
  max_restart_count, waiting_message, is_stop, handle_infrastructure_failure, restart_or_give_up,
  reconcile_running, reconcile_error,
}
use agenttier.Reconcile.Creating.{pod_name_of}
use agenttier.Reconcile.Provisioning.{broken_template, Plan, reconcile_creating}
use agenttier.Reconcile.Restarting.Refailing.{changes_pod, IsNone, reconcile_creating-Refails}
use agenttier.Reconcile.Stopping.{start}
use agenttier.Reconcile.Restarting.{marked, reconcile_error_restarts_due}

module _ (env : Env) (sb : Sandbox) (pod : Pod)
    (writes : (log : List Call) → env.verdict log update_status ≡ ok) where
  -- The stored sandbox once the failure has been recorded.
  abbrev after_failure : Sandbox
  after_failure =
      let count = sb.status.restart_count + 1 in
      record sb {
        status = record (sb.status) {
          phase = error;
          pod_name = "";
          restart_count = count;
          message = waiting_message env (get_pod_failure_reason pod) count;
        };
      }

  abbrev after_backoff : Sandbox
  after_backoff = record sb {
    status = record (sb.status) {
      phase = creating;
      pod_name = "";
      restart_count = sb.status.restart_count + 1;
      message = [];
    };
  }

  first_reconcile :
      sb.status.pod_name ≢ ""
      → is_stop sb.action ≡ false
      → env.find_pod [] sb.status.pod_name ≡ found pod
      → pod.phase ≡ pod_failed
      → is_infrastructure_failure (some pod) ≡ true
      → sb.status.restart_count + 1 < max_restart_count
      → (reconcile_running env (start sb)).1.stored ≡ after_failure
  unfolding reconcile_running handle_infrastructure_failure restart_or_give_up
  first_reconcile named quiet there failing infra fresh = ground (
    arith,
    eq_iff sb.status.pod_name "",
    writes (record_event "AutoRestarted" ∷ get_pod sb.status.pod_name ∷ []),
  )

  second_reconcile :
      sb.status.restart_count + 1 < max_restart_count
      → ((t : ℕ)
          → sb.status.started_at ≡ some t
          → calculate_backoff_delay (sb.status.restart_count + 1) ≤ℤ since (env.now []) t)
      → (reconcile_error env (start after_failure)).1.stored ≡ after_backoff
  second_reconcile fresh elapsed =
      (reconcile_error_restarts_due env after_failure fresh
        (marked env (get_pod_failure_reason pod) (sb.status.restart_count + 1)) elapsed writes).1

  first_quiet :
      sb.status.pod_name ≢ ""
      → is_stop sb.action ≡ false
      → env.find_pod [] sb.status.pod_name ≡ found pod
      → pod.phase ≡ pod_failed
      → is_infrastructure_failure (some pod) ≡ true
      → sb.status.restart_count + 1 < max_restart_count
      → any changes_pod (reconcile_running env (start sb)).1.log ≡ false
  unfolding reconcile_running handle_infrastructure_failure restart_or_give_up
  first_quiet named quiet there failing infra fresh = ground (
    arith,
    eq_iff sb.status.pod_name "",
    writes (record_event "AutoRestarted" ∷ get_pod sb.status.pod_name ∷ []),
  )

  second_quiet :
      sb.status.restart_count + 1 < max_restart_count
      → ((t : ℕ)
          → sb.status.started_at ≡ some t
          → calculate_backoff_delay (sb.status.restart_count + 1) ≤ℤ since (env.now []) t)
      → any changes_pod (reconcile_error env (start after_failure)).1.log ≡ false
  unfolding reconcile_error
  second_quiet fresh elapsed = elim (Option-cases sb.status.started_at) [
    | inl never ↦ ground (
      arith,
      writes (record_event "Restarting" ∷ []),
      marked env (get_pod_failure_reason pod) (sb.status.restart_count + 1),
    )
    | inr (t, e) ↦ ground (
      arith,
      elapsed t e,
      writes (record_event "Restarting" ∷ []),
      marked env (get_pod_failure_reason pod) (sb.status.restart_count + 1),
    )
  ]

-- A sandbox whose pod failed for the infrastructure, with restarts left, is put in Error to restart,
-- and goes back to Creating after its backoff; the reconcile that then provisions it meets the pod
-- that failed, under the name of the new one, and puts it in Error again, with the failure's reason
-- as its message. None of the three reconciles deletes a pod or creates one. This is so where each
-- call succeeds, the template resolves, the warm pool has no pod to give, and the failed pod is still
-- there.
pub failed_pod_blocks_restart :
    (env : Env) (plan : Plan) (sb : Sandbox) (pod : Pod)
    → ((log : List Call) (c : Call) → env.verdict log c ≡ ok)
    → plan.pod_owner_set ≡ true
    → ((log : List Call) → IsNone (plan.claim log))
    → plan.resolve [] ≢ broken_template
    → sb.status.pod_name ≡ pod_name_of sb.name
    → sb.status.pod_name ≢ ""
    → is_stop sb.action ≡ false
    → ((log : List Call) → env.find_pod log (pod_name_of sb.name) ≡ found pod)
    → pod.phase ≡ pod_failed
    → is_infrastructure_failure (some pod) ≡ true
    → sb.status.restart_count + 1 < max_restart_count
    → ((t : ℕ)
        → sb.status.started_at ≡ some t
        → calculate_backoff_delay (sb.status.restart_count + 1) ≤ℤ since (env.now []) t)
    → let w1 = (reconcile_running env (start sb)).1 in
      let w2 = (reconcile_error env (start w1.stored)).1 in
      let w3 = (reconcile_creating env plan (start w2.stored)).1 in
      (w1.stored.status.phase ≡ error)
      × (w2.stored.status.phase ≡ creating)
      × (w3.stored.status.phase ≡ error)
      × (w3.stored.status.message ≡ codes "Pod failed: " ++ get_pod_failure_reason pod)
      × (w3.stored.status.pod_name ≡ "")
      × (any changes_pod w1.log ≡ false)
      × (any changes_pod w2.log ≡ false)
      × (any changes_pod w3.log ≡ false)
failed_pod_blocks_restart env plan sb pod succeeds owned empty works same named quiet there failing
      infra fresh elapsed =
    let writes = λ (log : List Call). succeeds log update_status in
    let at : env.find_pod [] sb.status.pod_name ≡ found pod = rw same (there []) in
    let one = first_reconcile env sb pod writes named quiet at failing infra fresh in
    let two = second_reconcile env sb pod writes fresh elapsed in
    let (phase, message, left, log) =
      reconcile_creating-Refails env plan pod sb.name succeeds there failing owned
        (start (after_backoff env sb pod writes)) empty works refl refl in
    rw (one, two)
      (
        refl,
        refl,
        phase,
        message,
        left,
        first_quiet env sb pod writes named quiet at failing infra fresh,
        second_quiet env sb pod writes fresh elapsed,
        log refl,
      )
