-- ===== src/Reconcile/Isolation/Warm.antt =====
-- reconcileCreating of pkg/controller/sandbox_controller.go: no sandbox is Running without its network
-- policy, from the warm pool or not.
use agenttier.Prelude.{
  String, Bool, true, false, not, ◌&&◌, [], ◌∷◌, ◌≡◌, ◌≢◌, refl, if◌then◌else◌, str_eq, Text, codes,
  inl, inr, Bool-cases, some,
}
use agenttier.Lifecycle.Phase.{creating, running}
use agenttier.Reconcile.Creating.{create_or_await_pod}
use agenttier.Reconcile.Pods.{Pod}
use agenttier.Reconcile.Provisioning.{
  Resolution, no_template, broken_template, resolved, Plan, continued, or_error, policy_and_pod,
  volume_and_pod, provision, adopt_found, adopt_volume, run_claimed, isolate_and_run, relabelled,
  relabel, claim_answered, claim_or_provision, with_template, resolve_and_go, is_unset,
  reconcile_creating,
}
use agenttier.Reconcile.World.{
  Call, update_status, ensure_network_policy, ensure_volume, ensure_api_key, ensure_runtime_token,
  claim_pod, get_pvc, record_event, update_pod, update_pvc, Verdict, ok, not_found, refused, Fetch,
  found, missing, unreachable, Env, World, Result, fail, M, ◌>>=◌, ◌>>◌, return, set_status,
  after_verdict, must, try_call, fetch_pod,
}
use agenttier.WarmPool.Claim.{Claimed, claimed, no_pod, claim_failed}
use agenttier.Reconcile.Isolation.{
  Isolated, Cold, Safe, Grows, Keeps, Good, bind-Good, verdict-Keeps, transition_to_error-Keeps,
}
use agenttier.Reconcile.Isolation.Pods.{
  running_calls, running_calls-Grows, create_or_await_pod-Grows, if_Good,
}

module _ (env : Env) where
  module _ (plan : Plan) where
    continued-Good :
        (message : Text) (next : M Result) (v : Verdict)
        → Good env next
        → Good env (continued env plan message next v)
    continued-Good message next ok g w c is = g w c is
    continued-Good message next not_found g w c is =
        absurd ((transition_to_error-Keeps env message w c).1 is)
    continued-Good message next refused g w c is =
        absurd ((transition_to_error-Keeps env message w c).1 is)

    or_error-Good :
        (call : Call) (message : Text) (next : M Result)
        → Good env next
        → Good env (or_error env plan call message next)
    or_error-Good call message next g w c =
        let v = env.verdict w.log call in
        continued-Good message next v g (after_verdict v call w) (verdict-Keeps env v call w c)

    isolated_next :
        (message : Text) (next : M Result) (v : Verdict) (w : World)
        → Grows env next
        → env.verdict w.log ensure_network_policy ≡ v
        → Cold env w
        → Safe env (continued env plan message next v (after_verdict v ensure_network_policy w)).1
    isolated_next message next ok w g e c is =
        g (after_verdict ok ensure_network_policy w) (inl (refl, e))
    isolated_next message next not_found w g e c is = absurd (
        (transition_to_error-Keeps env message (after_verdict not_found ensure_network_policy w)
            c).1
          is)
    isolated_next message next refused w g e c is = absurd (
        (transition_to_error-Keeps env message (after_verdict refused ensure_network_policy w) c).1
          is)

    -- Behind the network policy anything may follow.
    policy-Good :
        (message : Text) (next : M Result)
        → Grows env next
        → Good env (or_error env plan ensure_network_policy message next)
    policy-Good message next g w c =
        isolated_next message next (env.verdict w.log ensure_network_policy) w g refl c

    owned_pod-Grows : (owned : Bool) → Grows env (if owned then create_or_await_pod env else fail)
    owned_pod-Grows true w i = create_or_await_pod-Grows env w i
    owned_pod-Grows false w i = i

    provision-Good : Good env (provision env plan)
    unfolding provision volume_and_pod policy_and_pod
    provision-Good = secrets plan.uses_http_exec
      where
        policy : Good env (policy_and_pod env plan)
        policy =
            policy-Good (codes "NetworkPolicy creation failed")
              (if plan.pod_owner_set then create_or_await_pod env else fail)
              (owned_pod-Grows plan.pod_owner_set)

        volume : Good env (volume_and_pod env plan)
        volume =
            or_error-Good ensure_volume (codes "PVC creation failed")
              (λ w.
                (set_status (λ s. record s { pvc_name = plan.volume_name w.log })
                    >> policy_and_pod env plan)
                  w)
              (λ w c.
                policy
                  (record w {
                    sandbox = record (w.sandbox) {
                      status = record (w.sandbox.status) { pvc_name = plan.volume_name w.log };
                    };
                  })
                  c)

        secrets :
            (http : Bool)
            → Good env (
                if http
                then or_error env plan ensure_runtime_token (codes "Runtime-token secret failed") (
                    or_error env plan ensure_api_key
                      (codes "Scoped API key secret failed")
                      (volume_and_pod env plan))
                else volume_and_pod env plan)
        secrets true =
            or_error-Good ensure_runtime_token (codes "Runtime-token secret failed")
              (or_error env plan ensure_api_key (codes "Scoped API key secret failed")
                (volume_and_pod env plan))
              (or_error-Good ensure_api_key (codes "Scoped API key secret failed")
                (volume_and_pod env plan) volume)
        secrets false = volume

    run_claimed-Grows : (pod pvc : String) → Grows env (run_claimed env plan pod pvc)
    unfolding run_claimed running_calls
    run_claimed-Grows pod pvc w i =
        running_calls-Grows env
          (record w {
            sandbox = record (w.sandbox) {
              status = record (w.sandbox.status) {
                phase = running;
                pod_name = pod;
                pvc_name = pvc;
                started_at = some (env.now w.log);
                last_activity = some (env.now w.log);
                message = [];
              };
            };
          })
          i

    adopt_found-Keeps : (pvc : String) (v : Verdict) → Keeps env (adopt_found env plan pvc v)
    adopt_found-Keeps pvc ok w c = adopted plan.pvc_owner_set
      where
        adopted :
            (set : Bool) → Cold env ((if set then try_call env (update_pvc pvc) else return tt) w).1
        adopted true = verdict-Keeps env (env.verdict w.log (update_pvc pvc)) (update_pvc pvc) w c
        adopted false = c
    adopt_found-Keeps pvc not_found w c = c
    adopt_found-Keeps pvc refused w c = c

    adopt_volume-Keeps : (pvc : String) → Keeps env (adopt_volume env plan pvc)
    unfolding adopt_volume
    adopt_volume-Keeps pvc w c = elim (Bool-cases (str_eq pvc "")) [
      | inl empty ↦ rw empty c
      | inr named ↦
          let v = env.verdict w.log (get_pvc pvc) in
          rw named (
            adopt_found-Keeps pvc v (after_verdict v (get_pvc pvc) w)
              (verdict-Keeps env v (get_pvc pvc) w c))
    ]

    relabelled-Good : (pod pvc : String) (v : Verdict) → Good env (relabelled env plan pod pvc v)
    unfolding isolate_and_run
    relabelled-Good pod pvc ok w c =
        bind-Good env (adopt_volume env plan pvc) (λ _. isolate_and_run env plan pod pvc)
          (adopt_volume-Keeps pvc)
          (λ _.
            policy-Good (codes "NetworkPolicy creation failed for warm-pool sandbox")
              (run_claimed env plan pod pvc) (run_claimed-Grows pod pvc))
          w c
    relabelled-Good pod pvc not_found w c = provision-Good w c
    relabelled-Good pod pvc refused w c = provision-Good w c

    relabel-Good :
        (pod pvc : String) (answer : Fetch Pod) → Good env (relabel env plan pod pvc answer)
    relabel-Good pod pvc missing w c = provision-Good w c
    relabel-Good pod pvc unreachable w c = provision-Good w c
    relabel-Good pod pvc (found p) w c =
        if_Good env (not plan.owner_set) (provision env plan) update provision-Good
          (λ w' c'.
            let v = env.verdict w'.log (update_pod pod) in
            relabelled-Good pod pvc v (after_verdict v (update_pod pod) w')
              (verdict-Keeps env v (update_pod pod) w' c'))
          w c
      where
        update : M Result
        update w' =
            let v = env.verdict w'.log (update_pod pod) in
            relabelled env plan pod pvc v (after_verdict v (update_pod pod) w')

    claim_answered-Good : (answer : Claimed) → Good env (claim_answered env plan answer)
    claim_answered-Good no_pod w c = provision-Good w c
    claim_answered-Good claim_failed w c = provision-Good w c
    claim_answered-Good (claimed pod pvc) w c =
        if_Good env (str_eq pod "") (provision env plan)
          (fetch_pod env pod >>= relabel env plan pod pvc) provision-Good
          (bind-Good env (fetch_pod env pod) (relabel env plan pod pvc) (λ w' c'. c')
            (relabel-Good pod pvc))
          w c

    claim_or_provision-Good : (template : String) → Good env (claim_or_provision env plan template)
    unfolding claim_or_provision
    claim_or_provision-Good template w c =
        if_Good env
          (str_eq w.sandbox.status.pod_name ""
            && not (str_eq template "")
            && plan.in_pool_namespace)
          (λ w'.
            claim_answered env plan (plan.claim w'.log) (record w' { log = claim_pod ∷ w'.log }))
          (provision env plan)
          (λ w' c'.
            claim_answered-Good (plan.claim w'.log) (record w' { log = claim_pod ∷ w'.log }) c')
          provision-Good w c

    with_template-Good : (answer : Resolution) → Good env (with_template env plan answer)
    with_template-Good no_template w c is = provision-Good w c is
    with_template-Good broken_template w c is =
        absurd ((transition_to_error-Keeps env (codes "Template resolution failed") w c).1 is)
    with_template-Good (resolved template) w c is = claim_or_provision-Good template w c is

    creating_event-Good :
        Good env (try_call env (record_event "Creating") >> resolve_and_go env plan)
    creating_event-Good =
        bind-Good env (try_call env (record_event "Creating")) (λ _. resolve_and_go env plan)
          (λ w c.
            verdict-Keeps env (env.verdict w.log (record_event "Creating"))
              (record_event "Creating") w c)
          (λ _ w c. with_template-Good (plan.resolve w.log) w c)

    not_creating : creating ≢ running
    not_creating e = cc

    -- Where neither the sandbox in memory nor the stored one is Running before: if the stored one is Running
    -- after reconcileCreating, from the warm pool or not, then its network policy was ensured, and
    -- that succeeded.
    pub reconcile_creating-Isolated :
        (w : World)
        → Cold env w
        → (reconcile_creating env plan w).1.stored.status.phase ≡ running
        → Isolated env (reconcile_creating env plan w).1.log
    unfolding reconcile_creating
    reconcile_creating-Isolated w c =
        if_Good env (is_unset env plan w.sandbox.status.phase) start (resolve_and_go env plan)
          start-Good (λ w' c'. with_template-Good (plan.resolve w'.log) w' c') w c
      where
        start : M Result
        start =
            set_status (λ s. record s { phase = creating })
            >> (must env update_status
                >> (try_call env (record_event "Creating") >> resolve_and_go env plan))

        start-Good : Good env start
        start-Good w' c' =
            bind-Good env (must env update_status)
              (λ _. try_call env (record_event "Creating") >> resolve_and_go env plan)
              (λ w2 c2. verdict-Keeps env (env.verdict w2.log update_status) update_status w2 c2)
              (λ _. creating_event-Good)
              (record w' {
                sandbox = record (w'.sandbox) {
                  status = record (w'.sandbox.status) { phase = creating };
                };
              })
              (not_creating, c'.1)
