-- ===== src/Reconcile/Provisioning.antt =====
-- reconcileCreating and dispatch of pkg/controller/sandbox_controller.go. Of the status it has the fields
-- of World. What the template resolves to, what the warm pool's Claim answers, and the configuration
-- are in `Plan`; the two secrets, the volume and the network policy are one call each, whose verdict
-- is that of the function which ensures it.
use agenttier.Prelude.{
  String, Bool, true, false, not, ◌&&◌, List, Text, codes, if◌then◌else◌, some, [], ◌∷◌, str_eq,
}
use agenttier.Lifecycle.Phase.{Phase, unset, creating, running, stopped, error, deleting, other}
use agenttier.Lifecycle.Timeouts.{default_requeue_delay}
use agenttier.Reconcile.Cleanup.{reconcile_delete}
use agenttier.Reconcile.Creating.{create_or_await_pod}
use agenttier.Reconcile.Handlers.{
  transition_to_error, the_sandbox, reconcile_running, reconcile_stopped, reconcile_error,
}
use agenttier.Reconcile.Pods.{Pod}
use agenttier.Reconcile.World.{
  Call, update_status, update_object, claim_pod, ensure_runtime_token, ensure_api_key,
  ensure_volume, ensure_network_policy, get_pvc, record_event, update_pod, update_pvc, Verdict, ok,
  not_found, refused, Fetch, found, Env, Result, no_requeue, requeue_now, after, M, ◌>>=◌, ◌>>◌,
  return, fail, set_status, set_sandbox, after_verdict, must, try_call, read_clock, fetch_pod,
}
use agenttier.WarmPool.Claim.{Claimed, claimed}

pub data Resolution : Type 0 where
  no_template broken_template : Resolution
  resolved : String → Resolution

-- `owner_set`, `pvc_owner_set` and `pod_owner_set` are whether the owner references of a claimed pod, of
-- its volume and of a new pod can be set.
pub record Plan : Type 0 where
  pub resolve : List Call → Resolution
  pub claim : List Call → Claimed
  pub in_pool_namespace : Bool
  pub owner_set : Bool
  pub pvc_owner_set : Bool
  pub pod_owner_set : Bool
  pub uses_http_exec : Bool
  pub volume_name : List Call → String

module _ (env : Env) (plan : Plan) where
  -- A call that ends in the phase Error if it fails, and what follows it otherwise.
  abbrev pub continued : Text → M Result → Verdict → M Result
  continued message next ok = next
  continued message next _ = transition_to_error env message

  abbrev pub or_error : Call → Text → M Result → M Result
  or_error c message next w =
      let v = env.verdict w.log c in continued message next v (after_verdict v c w)

  -- Steps 2 to 6: secrets, volume, network policy, pod.
  unfoldable pub policy_and_pod : M Result
  policy_and_pod =
      or_error ensure_network_policy (codes "NetworkPolicy creation failed")
        (if plan.pod_owner_set then create_or_await_pod env else fail)

  unfoldable pub volume_and_pod : M Result
  volume_and_pod =
      or_error ensure_volume (codes "PVC creation failed") (λ w.
        (set_status (λ s. record s { pvc_name = plan.volume_name w.log }) >> policy_and_pod) w)

  unfoldable pub provision : M Result
  provision =
      if plan.uses_http_exec
      then or_error ensure_runtime_token (codes "Runtime-token secret failed")
          (or_error ensure_api_key (codes "Scoped API key secret failed") volume_and_pod)
      else volume_and_pod

  -- The volume of a claimed pod is adopted as far as that succeeds.
  abbrev pub adopt_found : String → Verdict → M (Unit {0})
  adopt_found pvc ok = if plan.pvc_owner_set then try_call env (update_pvc pvc) else return tt
  adopt_found pvc _ = return tt

  unfoldable pub adopt_volume : String → M (Unit {0})
  adopt_volume pvc = if str_eq pvc "" then return tt else λ w.
      let v = env.verdict w.log (get_pvc pvc) in adopt_found pvc v (after_verdict v (get_pvc pvc) w)

  -- A claimed pod that has been adopted: isolation first, then the phase.
  unfoldable pub run_claimed : String → String → M Result
  run_claimed pod pvc = do
    now ← read_clock env
    set_status (λ s. record s {
      phase = running;
      pod_name = pod;
      pvc_name = pvc;
      started_at = some now;
      last_activity = some now;
      message = [];
    })
    must env update_status
    try_call env (record_event "Running")
    return (after default_requeue_delay)

  unfoldable pub isolate_and_run : String → String → M Result
  isolate_and_run pod pvc =
      or_error ensure_network_policy (codes "NetworkPolicy creation failed for warm-pool sandbox")
        (run_claimed pod pvc)

  abbrev pub relabelled : String → String → Verdict → M Result
  relabelled pod pvc ok = adopt_volume pvc >> isolate_and_run pod pvc
  relabelled pod pvc _ = provision

  abbrev pub relabel : String → String → Fetch Pod → M Result
  relabel pod pvc (found p) = if not plan.owner_set then provision else λ w.
      let v = env.verdict w.log (update_pod pod) in
      relabelled pod pvc v (after_verdict v (update_pod pod) w)
  relabel pod pvc _ = provision

  abbrev pub claim_answered : Claimed → M Result
  claim_answered (claimed pod pvc) =
      if str_eq pod "" then provision else fetch_pod env pod >>= relabel pod pvc
  claim_answered _ = provision

  unfoldable pub claim_or_provision : String → M Result
  claim_or_provision template = do
    sb ← the_sandbox
    if str_eq sb.status.pod_name "" && not (str_eq template "") && plan.in_pool_namespace
        then (λ w. claim_answered (plan.claim w.log) (record w { log = claim_pod ∷ w.log }))
        else provision

  abbrev pub with_template : Resolution → M Result
  with_template broken_template = transition_to_error env (codes "Template resolution failed")
  with_template no_template = provision
  with_template (resolved template) = claim_or_provision template

  abbrev pub resolve_and_go : M Result
  resolve_and_go w = with_template (plan.resolve w.log) w

  abbrev pub is_unset : Phase → Bool
  is_unset unset = true
  is_unset _ = false

  unfoldable pub reconcile_creating : M Result
  reconcile_creating = do
    sb ← the_sandbox
    if is_unset sb.status.phase
        then (do
          set_status (λ s. record s { phase = creating })
          must env update_status
          try_call env (record_event "Creating")
          resolve_and_go)
        else resolve_and_go

  abbrev pub by_phase : Phase → M Result
  by_phase unset = reconcile_creating
  by_phase creating = reconcile_creating
  by_phase running = reconcile_running env
  by_phase stopped = reconcile_stopped
  by_phase error = reconcile_error env
  by_phase deleting = return no_requeue
  by_phase (other text) = return no_requeue

  -- On the answer of the Get of the sandbox; `is_deleted` is a deletion timestamp that is set.
  unfoldable pub dispatch : Verdict → Bool → M Result
  dispatch not_found is_deleted = return no_requeue
  dispatch refused is_deleted = fail
  dispatch ok is_deleted = do
    sb ← the_sandbox
    if is_deleted
        then reconcile_delete env
        else (if not sb.finalizer
            then (do
              set_sandbox (λ s. record s { finalizer = true })
              must env update_object
              return requeue_now)
            else by_phase sb.status.phase)
