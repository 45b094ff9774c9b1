-- ===== src/Reconcile/Restarting/Refailing.antt =====
-- reconcileCreating of pkg/controller/sandbox_controller.go where the sandbox's pod is there and has
-- failed: it neither deletes the pod nor creates one, and the sandbox ends in Error.
use agenttier.Prelude.{
  String, Bool, true, false, List, ◌++◌, ◌≡◌, ◌≢◌, refl, ap, arith, any, codes, if◌then◌else◌, ◌∷◌,
  Text, not, ◌&&◌, str_eq,
}
use agenttier.Lifecycle.Phase.{Phase, creating, error}
use agenttier.Reconcile.Pods.{Pod, pod_failed, is_pod_ready, get_pod_failure_reason}
use agenttier.Reconcile.World.{
  Call, update_status, ensure_network_policy, ensure_volume, ensure_api_key, ensure_runtime_token,
  claim_pod, get_pod, delete_pod, create_pod, ok, found, Env, World, Result, M, fail, after_verdict,
}
use agenttier.Reconcile.Creating.{pod_name_of, create_or_await_pod}
use agenttier.Reconcile.Provisioning.{
  Resolution, no_template, broken_template, resolved, Plan, or_error, policy_and_pod,
  volume_and_pod, provision, claim_answered, claim_or_provision, with_template, is_unset,
  reconcile_creating,
}
use agenttier.WarmPool.Claim.{Claimed, claimed, no_pod, claim_failed}

-- A call that deletes a pod or creates one.
abbrev pub changes_pod : Call → Bool
changes_pod (delete_pod name) = true
changes_pod (create_pod name) = true
changes_pod _ = false

-- The warm pool has no pod to give.
abbrev pub IsNone : Claimed → Type 0
IsNone (claimed name volume) = ⊥
IsNone no_pod = Unit
IsNone claim_failed = Unit

module _ (env : Env) (plan : Plan) (pod : Pod) where
  -- What a run that meets the failed pod leaves.
  abbrev pub Refails : World → World → Type 0
  Refails w out =
      (out.stored.status.phase ≡ error)
      × (out.stored.status.message ≡ codes "Pod failed: " ++ get_pod_failure_reason pod)
      × (out.stored.status.pod_name ≡ w.sandbox.status.pod_name)
      × (any changes_pod w.log ≡ false → any changes_pod out.log ≡ false)

  module _ (name : String) (succeeds : (log : List Call) (c : Call) → env.verdict log c ≡ ok)
      (there : (log : List Call) → env.find_pod log (pod_name_of name) ≡ found pod)
      (failing : pod.phase ≡ pod_failed) (owned : plan.pod_owner_set ≡ true) where
    abbrev Meets : M Result → Type 0
    Meets m = (w : World) → w.sandbox.name ≡ name → Refails w (m w).1

    create_or_await_pod-Meets : Meets (create_or_await_pod env)
    unfolding create_or_await_pod is_pod_ready
    create_or_await_pod-Meets w same =
        rw (same, there w.log)
          (ground (arith, failing, succeeds (get_pod (pod_name_of name) ∷ w.log) update_status))

    or_error-Meets :
        (c : Call) (message : Text) (next : M Result)
        → changes_pod c ≡ false
        → Meets next
        → Meets (or_error env plan c message next)
    or_error-Meets c message next quiet meets w same = rw (succeeds w.log c) (
        let (phase, text, left, log) = meets (after_verdict ok c w) same in
        (phase, text, left, λ h. log (rw quiet h)))

    owned_pod-Meets : Meets (if plan.pod_owner_set then create_or_await_pod env else fail)
    owned_pod-Meets w same = rw owned (create_or_await_pod-Meets w same)

    volume-Meets : Meets (volume_and_pod env plan)
    unfolding volume_and_pod policy_and_pod
    volume-Meets = or_error-Meets ensure_volume (codes "PVC creation failed") _ refl (λ w same.
        or_error-Meets ensure_network_policy (codes "NetworkPolicy creation failed")
          (if plan.pod_owner_set then create_or_await_pod env else fail) refl owned_pod-Meets
          (record w {
            sandbox = record (w.sandbox) {
              status = record (w.sandbox.status) { pvc_name = plan.volume_name w.log };
            };
          })
          same)

    provision-Meets : Meets (provision env plan)
    unfolding provision
    provision-Meets = secrets plan.uses_http_exec
      where
        secrets :
            (http : Bool)
            → Meets (
                if http
                then or_error env plan ensure_runtime_token (codes "Runtime-token secret failed") (
                    or_error env plan ensure_api_key
                      (codes "Scoped API key secret failed")
                      (volume_and_pod env plan))
                else volume_and_pod env plan)
        secrets true w same =
            or_error-Meets ensure_runtime_token (codes "Runtime-token secret failed") _ refl
              (or_error-Meets ensure_api_key (codes "Scoped API key secret failed") _ refl
                volume-Meets)
              w same
        secrets false w same = volume-Meets w same

    answered-Meets : (answer : Claimed) → IsNone answer → Meets (claim_answered env plan answer)
    answered-Meets (claimed n v) none_left w same = absurd none_left
    answered-Meets no_pod none_left w same = provision-Meets w same
    answered-Meets claim_failed none_left w same = provision-Meets w same

    claim-Meets :
        ((log : List Call) → IsNone (plan.claim log))
        → (template : String) → Meets (claim_or_provision env plan template)
    unfolding claim_or_provision
    claim-Meets empty template w same =
        either (
          str_eq w.sandbox.status.pod_name "" && not (str_eq template "") && plan.in_pool_namespace)
      where
        either :
            (claims : Bool)
            → Refails w
                ((if claims
                    then (λ (w' : World).
                        claim_answered env plan
                          (plan.claim w'.log)
                          (record w' { log = claim_pod ∷ w'.log }))
                    else provision env plan)
                  w).1
        either true =
            answered-Meets (plan.claim w.log) (empty w.log) (record w { log = claim_pod ∷ w.log })
              same
        either false = provision-Meets w same

    with_template-Meets :
        ((log : List Call) → IsNone (plan.claim log))
        → (answer : Resolution) → answer ≢ broken_template
        → Meets (with_template env plan answer)
    with_template-Meets empty no_template works w same = provision-Meets w same
    with_template-Meets empty broken_template works w same = absurd (works refl)
    with_template-Meets empty (resolved template) works w same = claim-Meets empty template w same

    -- Where each call succeeds, the template resolves and the pool gives no pod, the reconcile of a
    -- sandbox in Creating whose pod has failed puts it in Error with the pod's reason, and neither
    -- deletes a pod nor creates one.
    pub reconcile_creating-Refails :
        (w : World)
        → ((log : List Call) → IsNone (plan.claim log))
        → plan.resolve w.log ≢ broken_template
        → w.sandbox.status.phase ≡ creating
        → w.sandbox.name ≡ name
        → Refails w (reconcile_creating env plan w).1
    unfolding reconcile_creating
    reconcile_creating-Refails w empty works is same =
        rw (begun is) (with_template-Meets empty (plan.resolve w.log) works w same)
      where
        begun : {p : Phase} → p ≡ creating → is_unset env plan p ≡ false
        begun e = ap (is_unset env plan) e
