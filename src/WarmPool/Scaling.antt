-- ===== src/WarmPool/Scaling.antt =====
-- reconcilePool, scaleDown, deletePodAndPVC and createPoolPod of pool.go, over the pods and volumes of
-- the sandbox namespace. Of a created pod the model has its name, labels and volume.
pub mod Effects
use Prim.Native.String
use agenttier.Prelude.{
  ℕ, ◌+◌, ◌-◌, String, Bool, true, false, not, ◌&&◌, ◌||◌, Option, none, some, List, [], ◌∷◌,
  if◌then◌else◌, str_eq, keep, length, min, ◌==◌, any, ltb,
}
use agenttier.Prelude.Int.{ℤ, pos, leb_ℤ, ltb_ℤ, pos_part}
use agenttier.Reconcile.Pods.{pod_pending}
use agenttier.WarmPool.Pods.{PoolPod}
use agenttier.WarmPool.Config.{PoolConfig}

pub record Cluster : Type 0 where
  pub pods : List PoolPod
  pub volumes : List String

-- What the API server and the random source answer in one pass: whether the lists succeed, the first
-- and that of scaleDown; whether a pod and a volume of a name can be deleted; whether the template is
-- there; the suffix, if the random source works; whether the volume and the pod can be created.
pub record PoolEnv : Type 0 where
  pub lists : Bool
  pub lists_again : Bool
  pub deletes : String → Bool
  pub drops : String → Bool
  pub has_template : Bool
  pub suffix : Option String
  pub creates_volume : Bool
  pub creates_pod : Bool

-- Without a template the list is of all pools.
abbrev pub in_pool : String → PoolPod → Bool
in_pool template pod = pod.pooled && (str_eq template "" || str_eq pod.template template)

abbrev pub pool_pods : String → Cluster → List PoolPod
pool_pods template c = keep (in_pool template) c.pods

-- Whether a volume is one of the pod's claims.
abbrev pub is_claimed : String → Option String → Bool
is_claimed name none = false
is_claimed name (some claim) = str_eq claim name

-- The pod goes, and with it its claims, as far as they can be deleted; an error on a claim is ignored.
abbrev pub without_pod : PoolEnv → PoolPod → Cluster → Cluster
without_pod env pod c = record {
  pods = keep (λ (p : PoolPod). not (str_eq p.name pod.name)) c.pods;
  volumes = keep (λ v. not (any (is_claimed v) pod.volumes && env.drops v)) c.volumes;
}

abbrev pub delete_pod_and_pvc : PoolEnv → PoolPod → Cluster → Cluster
delete_pod_and_pvc env pod c = if env.deletes pod.name then without_pod env pod c else c

-- The loop of scaleDown, with the number of deletions that are left; a deletion that fails does not
-- count.
unfoldable pub delete_some : PoolEnv → List PoolPod → ℕ → Cluster → Cluster
delete_some env [] left c = c
delete_some env (pod ∷ pods) left c =
    let rest =
      delete_some env pods (if env.deletes pod.name then left - 1 else left)
        (delete_pod_and_pvc env pod c) in
    if left == 0 then c else rest

-- `none` is an error. `len(pods) - targetCount` that is not positive deletes nothing.
unfoldable pub scale_down : PoolEnv → String → ℕ → Cluster → Cluster × Bool
unfolding delete_some
scale_down env template target c =
    if env.lists_again
    then (delete_some env (pool_pods template c) (length (pool_pods template c) - target) c, true)
    else (c, false)

-- `pool-` with the first 12 bytes of the template's name and the suffix.
abbrev pub pool_pod_name : String → String → String
pool_pod_name template suffix =
    String.◌++◌ "pool-" (
      String.◌++◌ (String.slice template 0 (min (String.len template) 12)) (String.◌++◌ "-" suffix))

abbrev pub pool_pvc_name : String → String
pool_pvc_name pod_name = String.◌++◌ pod_name "-pvc"

abbrev pub new_pod : String → String → PoolPod
new_pod template name = record {
  name = name;
  pooled = true;
  template = template;
  phase = pod_pending;
  conditions = [];
  volumes = some (pool_pvc_name name) ∷ none ∷ [];
  version = 0;
}

-- The volume comes before the pod, and stays if the pod cannot be created.
abbrev pub create_named : PoolEnv → String → String → Cluster → Cluster × Bool
create_named env template name c =
    if env.creates_volume
    then (if env.creates_pod
        then (
          record {
            pods = new_pod template name ∷ c.pods;
            volumes = pool_pvc_name name ∷ c.volumes;
          },
          true,
        )
        else (record c { volumes = pool_pvc_name name ∷ c.volumes }, false))
    else (c, false)

abbrev pub with_suffix : PoolEnv → String → Option String → Cluster → Cluster × Bool
with_suffix env template none c = (c, false)
with_suffix env template (some suffix) c =
    create_named env template (pool_pod_name template suffix) c

unfoldable pub create_pool_pod : PoolEnv → String → Cluster → Cluster × Bool
create_pool_pod env template c =
    if env.has_template then with_suffix env template env.suffix c else (c, false)

-- One entry: drain it where it is disabled, else one pod more or down to the desired count.
unfoldable pub reconcile_pool : PoolEnv → PoolConfig → Cluster → Cluster × Bool
reconcile_pool env pool c =
    let current = length (pool_pods pool.template c) in
    if not env.lists
    then (c, false)
    else (if leb_ℤ pool.desired_count (pos 0)
        then scale_down env pool.template 0 c
        else (if ltb_ℤ (pos current) pool.desired_count
            then create_pool_pod env pool.template c
            else (if ltb_ℤ pool.desired_count (pos current)
                then scale_down env pool.template (pos_part pool.desired_count) c
                else (c, true))))
