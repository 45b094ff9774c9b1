-- ===== src/Reconcile/Tests.antt =====
-- The theorems on the reconcile loop in a concrete cluster.
use Prim.Native.String
use agenttier.Prelude.{
  ℕ, ◌+◌, ◌≤◌, ◌<◌, String, Bool, true, false, Option, none, some, List, [], ◌∷◌, ◌++◌, any, ◌≡◌,
  ◌≢◌, refl, ◌⊎◌, inl, inr, arith, eq_iff, str_eq, if◌then◌else◌, Text, codes, contains,
  contains-self_append,
}
use agenttier.Prelude.Int.{ℤ, pos, ◌≤ℤ◌, ◌<ℤ◌}
use agenttier.Lifecycle.Phase.{Phase, creating, running, error}
use agenttier.Lifecycle.Timeouts.{since}
use agenttier.Lifecycle.Backoff.{calculate_backoff_delay}
use agenttier.Reconcile.Pods.{
  Pod, pod_failed, first_verdict, get_pod_failure_reason, is_infrastructure_failure,
}
use agenttier.Reconcile.World.{
  Sandbox, Call, delete_pod, get_key_record, Verdict, ok, refused, found, Env, failed,
}
use agenttier.Reconcile.Handlers.{
  max_restart_count, restart_marker, stopped_status, is_stop, stop_sandbox,
  handle_infrastructure_failure, reconcile_running, reconcile_error,
}
use agenttier.Reconcile.Cleanup.{scoped_key_secret_name, reconcile_delete}
use agenttier.Reconcile.Provisioning.{Plan, resolved, broken_template, reconcile_creating}
use agenttier.Reconcile.Restarting.Refailing.{changes_pod}
use agenttier.WarmPool.Claim.{no_pod}
use agenttier.Reconcile.Stopping.{
  start, deletes_pod, StopCause, reconcile_running-StopCause, stop_request_lost,
}
use agenttier.Reconcile.Restarting.Budget.{
  InBudget, Reach, here, next, ran, provisioned, Reach-InBudget,
}
use agenttier.Reconcile.Restarting.Blocked.{failed_pod_blocks_restart}
use agenttier.Reconcile.Deleting.{
  Gone, deletes_volume_named, deletes_policy, deletes_key, record_name, reconcile_delete-Gone,
}

abbrev crashed : Pod
crashed = record {
  name = "sb-pod";
  phase = pod_failed;
  conditions = [];
  container_statuses =
      (record { terminated = none; waiting_reason = some "CrashLoopBackOff" }) ∷ [];
  reason = "";
}

-- A cluster that carries out each call, with one pod, which has crashed, and one scoped key.
abbrev cluster_env : Env
cluster_env = record {
  verdict = λ log c. ok;
  find_pod = λ log name. found crashed;
  find_key = λ log name. found "key";
  now = λ log. 1000000000000;
  resolved_snapshot = none;
  show_duration = λ d. [];
  show_int = λ n. [];
  hash_api_key = λ key. "hash";
}

abbrev refuse_deletion : Call → Verdict
refuse_deletion (delete_pod name) = refused
refuse_deletion _ = ok

abbrev stuck_env : Env
stuck_env = record cluster_env { verdict = λ log c. refuse_deletion c }

abbrev sandbox_in : Phase → ℕ → Text → Sandbox
sandbox_in phase count message = record {
  name = "sb";
  idle_timeout = none;
  timeout = some (pos 3600000000000);
  snapshot = some true;
  action = none;
  finalizer = true;
  status = record {
    phase = phase;
    pod_name = "sb-pod";
    pvc_name = "sb-pvc";
    started_at = some 500000000000;
    last_activity = none;
    restart_count = count;
    message = message;
  };
}

abbrev fresh : Sandbox
fresh = sandbox_in running 0 []

abbrev asked_to_stop : Sandbox
asked_to_stop = record fresh { action = some "stop" }

reconcile_running-StopCause_example : StopCause cluster_env asked_to_stop
unfolding reconcile_running stop_sandbox agenttier.Reconcile.Handlers.snapshot_if_enabled
    agenttier.Reconcile.Handlers.delete_pod_of agenttier.Reconcile.Handlers.finish_stop
reconcile_running-StopCause_example =
    reconcile_running-StopCause cluster_env asked_to_stop refl refl

stop_request_lost_example :
    let out = reconcile_running stuck_env (start asked_to_stop) in
    (out.0 ≡ failed) × (out.1.stored ≡ record asked_to_stop { action = none })
stop_request_lost_example =
    stop_request_lost stuck_env asked_to_stop (λ e. ground (arith, eq_iff "sb-pod" "")) refl
      (λ log. refl) (λ log. refl)

elapsed :
    (t : ℕ) → fresh.status.started_at ≡ some t → calculate_backoff_delay 1 ≤ℤ since 1000000000000 t
unfolding calculate_backoff_delay agenttier.Prelude.Int.int64
elapsed t e = ground arith

abbrev cold_plan : Plan
cold_plan = record {
  resolve = λ log. resolved "base";
  claim = λ log. no_pod;
  in_pool_namespace = true;
  owner_set = true;
  pvc_owner_set = true;
  pod_owner_set = true;
  uses_http_exec = true;
  volume_name = λ log. "sb-pvc";
}

works : resolved "base" ≢ broken_template
works e = cc

failed_pod_blocks_restart_example :
    let w1 = (reconcile_running cluster_env (start fresh)).1 in
    let w2 = (reconcile_error cluster_env (start w1.stored)).1 in
    let w3 = (reconcile_creating cluster_env cold_plan (start w2.stored)).1 in
    (w1.stored.status.phase ≡ error)
    × (w2.stored.status.phase ≡ creating)
    × (w3.stored.status.phase ≡ error)
    × (w3.stored.status.message ≡ codes "Pod failed: " ++ get_pod_failure_reason crashed)
    × (w3.stored.status.pod_name ≡ "")
    × (any changes_pod w1.log ≡ false)
    × (any changes_pod w2.log ≡ false)
    × (any changes_pod w3.log ≡ false)
unfolding is_infrastructure_failure first_verdict
failed_pod_blocks_restart_example =
    failed_pod_blocks_restart cluster_env cold_plan fresh crashed (λ log c. refl) refl (λ log. tt)
      works refl (λ e. ground (arith, eq_iff "sb-pod" "")) refl (λ log. refl) refl refl
      (omega arith) elapsed

-- A pod fails, and the failed sandbox is reconciled once more.
abbrev after_crash : Sandbox
after_crash = (reconcile_running cluster_env (start fresh)).1.stored

crashes : Reach (sandbox_in creating 0 []) after_crash
crashes = next (next here (provisioned (inr refl) refl)) (ran cluster_env refl refl)

Reach-InBudget_example : InBudget after_crash
Reach-InBudget_example = Reach-InBudget crashes refl

reconcile_delete-Gone_example :
    let out = (reconcile_delete cluster_env (start fresh)).1 in
    (fresh.status.pod_name ≢ "" → Gone cluster_env (deletes_pod "sb-pod") out.log)
    × (fresh.status.pvc_name ≢ "" → Gone cluster_env (deletes_volume_named "sb-pvc") out.log)
    × Gone cluster_env (deletes_policy (String.◌++◌ "sb" "-netpol")) out.log
    × ((key : String)
        → ((log : List Call) → cluster_env.find_key log (scoped_key_secret_name "sb") ≡ found key)
        → key ≢ ""
        → ((log : List Call)
            → cluster_env.verdict log (get_key_record (record_name cluster_env key)) ≡ ok)
        → Gone cluster_env (deletes_key (record_name cluster_env key)) out.log)
unfolding reconcile_delete agenttier.Reconcile.Handlers.delete_pod_of
    agenttier.Reconcile.Cleanup.delete_volume_of agenttier.Reconcile.Cleanup.revoke_sandbox_api_key
    agenttier.Reconcile.Cleanup.release
reconcile_delete-Gone_example = reconcile_delete-Gone cluster_env fresh refl refl
