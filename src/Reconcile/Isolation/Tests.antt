-- ===== src/Reconcile/Isolation/Tests.antt =====
-- The theorem on network policies in a concrete cluster.
use agenttier.Prelude.{true, false, none, [], ◌≡◌, ◌≢◌, refl}
use agenttier.Lifecycle.Phase.{creating, running}
use agenttier.Reconcile.Isolation.{Isolated}
use agenttier.Reconcile.Isolation.Warm.{reconcile_creating-Isolated}
use agenttier.Reconcile.Pods.{Pod, pod_running}
use agenttier.Reconcile.Provisioning.{
  Plan, resolved, adopt_volume, run_claimed, isolate_and_run, claim_or_provision,
  reconcile_creating,
}
use agenttier.Reconcile.World.{Sandbox, ok, found, Env, World}
use agenttier.WarmPool.Claim.{claimed}

abbrev fresh_sandbox : Sandbox
fresh_sandbox = record {
  name = "sb";
  idle_timeout = none;
  timeout = none;
  snapshot = none;
  action = none;
  finalizer = true;
  status = record {
    phase = creating;
    pod_name = "";
    pvc_name = "";
    started_at = none;
    last_activity = none;
    restart_count = 0;
    message = [];
  };
}

abbrev pool_pod : Pod
pool_pod = record {
  name = "pool-1";
  phase = pod_running;
  conditions = [];
  container_statuses = [];
  reason = "";
}

-- A cluster that carries out each call, and a pool that has a pod.
abbrev warm_env : Env
warm_env = record {
  verdict = λ log c. ok;
  find_pod = λ log name. found pool_pod;
  find_key = λ log name. found "key";
  now = λ log. 10;
  resolved_snapshot = none;
  show_duration = λ d. [];
  show_int = λ n. [];
  hash_api_key = λ key. "hash";
}

abbrev warm_plan : Plan
warm_plan = record {
  resolve = λ log. resolved "base";
  claim = λ log. claimed "pool-1" "pool-1-pvc";
  in_pool_namespace = true;
  owner_set = true;
  pvc_owner_set = true;
  pod_owner_set = true;
  uses_http_exec = false;
  volume_name = λ log. "sb-pvc";
}

abbrev before : World
before = record { sandbox = fresh_sandbox; stored = fresh_sandbox; log = [] }

creating_is_cold : creating ≢ running
creating_is_cold e = cc

becomes_running : (reconcile_creating warm_env warm_plan before).1.stored.status.phase ≡ running
unfolding reconcile_creating claim_or_provision adopt_volume isolate_and_run run_claimed
becomes_running = refl

reconcile_creating-Isolated_example :
    Isolated warm_env (reconcile_creating warm_env warm_plan before).1.log
reconcile_creating-Isolated_example =
    reconcile_creating-Isolated warm_env warm_plan before (creating_is_cold, creating_is_cold)
      becomes_running
