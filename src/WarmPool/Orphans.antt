-- ===== src/WarmPool/Orphans.antt =====
-- Reconcile and cleanupOrphanedPools of pool.go: every configured pool by itself, and then the pods of
-- templates that are configured no more.
use agenttier.Prelude.{
  String, Bool, true, false, not, ◌&&◌, Option, none, some, List, [], ◌∷◌, if◌then◌else◌, str_eq,
  eq_iff, any, keep, In, In-keep, ◌≡◌, ◌≢◌, refl, sym, ap, ◌∙◌, subst, ◌↔◌, inl, inr, arith,
  Bool-cases,
}
use agenttier.WarmPool.Pods.{PoolPod}
use agenttier.WarmPool.Config.{PoolConfig, Config}
use agenttier.WarmPool.Scaling.{Cluster, PoolEnv, delete_pod_and_pvc, reconcile_pool}
use agenttier.WarmPool.Scaling.Effects.{NamesDiffer, All-In}

-- A pod without a template's label is left for people to look at.
abbrev pub is_orphan : List String → PoolPod → Bool
is_orphan configured pod =
    not (str_eq pod.template "") && not (any (λ t. str_eq t pod.template) configured)

-- One round of the loop.
abbrev pub delete_orphan : PoolEnv → List String → PoolPod → Cluster → Cluster
delete_orphan env configured pod c =
    if is_orphan configured pod then delete_pod_and_pvc env pod c else c

unfoldable pub delete_orphans : PoolEnv → List String → List PoolPod → Cluster → Cluster
delete_orphans env configured [] c = c
delete_orphans env configured (pod ∷ pods) c =
    delete_orphans env configured pods (delete_orphan env configured pod c)

unfoldable pub cleanup_orphaned_pools : PoolEnv → List String → Cluster → Cluster × Bool
cleanup_orphaned_pools env configured c =
    if env.lists
    then (delete_orphans env configured (keep (λ (p : PoolPod). p.pooled) c.pods) c, true)
    else (c, false)

-- The templates of the entries that name one.
abbrev pub configured_templates : List PoolConfig → List String
configured_templates [] = []
configured_templates (p ∷ pools) =
    if str_eq p.template ""
    then configured_templates pools
    else p.template ∷ configured_templates pools

-- One entry after the other, whatever becomes of those before; `envs` has the answers for each.
unfoldable pub converge : (PoolConfig → PoolEnv) → List PoolConfig → Cluster → Cluster
converge envs [] c = c
converge envs (p ∷ pools) c =
    converge envs pools (if str_eq p.template "" then c else (reconcile_pool (envs p) p c).0)

-- Without a configuration that can be read nothing is done.
unfoldable pub reconcile : (PoolConfig → PoolEnv) → PoolEnv → Option Config → Cluster → Cluster
unfolding converge cleanup_orphaned_pools
reconcile envs env none c = c
reconcile envs env (some cfg) c =
    (cleanup_orphaned_pools env (configured_templates cfg.pools) (converge envs cfg.pools c)).0

In-delete_pod_and_pvc :
    (env : PoolEnv) (pod p : PoolPod) (c : Cluster)
    → In p (delete_pod_and_pvc env pod c).pods
      ↔ (In p c.pods × (env.deletes pod.name ≡ true → p.name ≢ pod.name))
In-delete_pod_and_pvc env pod p c =
    let (to, from) = In-keep (λ (q : PoolPod). not (str_eq q.name pod.name)) p c.pods in
    elim (Bool-cases (env.deletes pod.name)) [
      | inl served ↦ rw served (
        λ h. ((to h).0, λ _ e. let t = (to h).1 in ground (arith, eq_iff p.name pod.name)),
        λ (m, other). from (m, let differ = other refl in ground (arith, eq_iff p.name pod.name)),
      )
      | inr refused ↦ rw refused (λ m. (m, λ e. cc), λ h. h.0)
    ]

In-delete_orphan :
    (env : PoolEnv) (configured : List String) (pod p : PoolPod) (c : Cluster)
    → In p (delete_orphan env configured pod c).pods ↔ (
        In p c.pods
        × (is_orphan configured pod ≡ true → env.deletes pod.name ≡ true → p.name ≢ pod.name))
In-delete_orphan env configured pod p c =
    let (one, back) = In-delete_pod_and_pvc env pod p c in
    elim (Bool-cases (is_orphan configured pod)) [
      | inl orphan ↦ rw orphan (λ h. ((one h).0, λ _. (one h).1), λ (m, own). back (m, own refl))
      | inr kept ↦ rw kept (λ m. (m, λ e. cc), λ h. h.0)
    ]

In-delete_orphans :
    (env : PoolEnv) (configured : List String) (l : List PoolPod) (p : PoolPod) (c : Cluster)
    → In p (delete_orphans env configured l c).pods ↔ (
        In p c.pods
        × ((q : PoolPod)
            → In q l
            → is_orphan configured q ≡ true
            → env.deletes q.name ≡ true
            → p.name ≢ q.name))
unfolding delete_orphans
In-delete_orphans env configured [] p c = (λ m. (m, λ q h. absurd h), λ h. h.0)
In-delete_orphans env configured (pod ∷ l) p c =
    let (to, from) = In-delete_orphans env configured l p (delete_orphan env configured pod c) in
    let (one, back) = In-delete_orphan env configured pod p c in
    (
      λ h.
          let (there, rest) = to h in
          let (m, own) = one there in
          (
            m,
            λ q x. elim x [
              | inl e ↦
                  subst
                    (λ u.
                      is_orphan configured u ≡ true → env.deletes u.name ≡ true → p.name ≢ u.name)
                    (sym e) own
              | inr later ↦ rest q later
            ],
          ),
      λ (m, all). from (back (m, all pod (inl refl)), λ q x. all q (inr x)),
    )

same_name :
    (p q : PoolPod) (pods : List PoolPod)
    → NamesDiffer pods
    → In p pods
    → In q pods
    → p.name ≡ q.name
    → p ≡ q
same_name p q [] d m k e = absurd m
same_name p q (r ∷ pods) d (inl here) (inl there) e = here ∙ sym there
same_name p q (r ∷ pods) d (inl here) (inr there) e = absurd (
    All-In (λ (u : PoolPod). u.name ≢ r.name) q pods d.0 there
      (sym e ∙ ap (λ (x : PoolPod). x.name) here))
same_name p q (r ∷ pods) d (inr here) (inl there) e = absurd (
    All-In (λ (u : PoolPod). u.name ≢ r.name) p pods d.0 here
      (e ∙ ap (λ (x : PoolPod). x.name) there))
same_name p q (r ∷ pods) d (inr here) (inr there) e = same_name p q pods d.1 here there e

-- Where the list succeeds and no two pods have the same name, the cleanup removes exactly the pods of
-- the pool that are orphans and can be deleted.
pub cleanup_orphaned_pools-In :
    (env : PoolEnv) (configured : List String) (c : Cluster) (p : PoolPod)
    → env.lists ≡ true
    → NamesDiffer c.pods
    → In p (cleanup_orphaned_pools env configured c).0.pods ↔ (
        In p c.pods
        × ¬ ((p.pooled ≡ true) × (is_orphan configured p ≡ true) × (env.deletes p.name ≡ true)))
unfolding cleanup_orphaned_pools delete_orphans
cleanup_orphaned_pools-In env configured c p lists names =
    let pooled = keep (λ (q : PoolPod). q.pooled) c.pods in
    let (to, from) = In-delete_orphans env configured pooled p c in
    rw lists (
      λ h.
          let (m, rest) = to h in
          (
            m,
            λ (mine, orphan, served).
                rest p ((In-keep (λ (q : PoolPod). q.pooled) p c.pods).1 (m, mine)) orphan served
                  refl,
          ),
      λ (m, stays). from (
        m,
        λ q k orphan served same.
            let (there, mine) = (In-keep (λ (u : PoolPod). u.pooled) q c.pods).0 k in
            let e = same_name p q c.pods names m there same in
            stays (
              subst
                (λ (u : PoolPod).
                  (u.pooled ≡ true) × (is_orphan configured u ≡ true) × (env.deletes u.name ≡ true))
                (sym e) (mine, orphan, served)),
      ),
    )
