-- ===== src/WarmPool/Scaling/Effects.antt =====
-- What a reconcile of one pool does to the pods of the namespace.
use agenttier.Prelude.{
  ℕ, zero, suc, ◌+◌, ◌-◌, ◌≤◌, String, Bool, true, false, not, some, List, [], ◌∷◌, ◌≡◌, ◌≢◌, refl,
  sym, subst, inl, inr, arith, In, In-keep, All, keep, length, if◌then◌else◌, str_eq, eq_iff,
  Bool-cases, ltb, eq_refl,
}
use agenttier.Prelude.Int.{pos_part}
use agenttier.WarmPool.Pods.{PoolPod}
use agenttier.WarmPool.Config.{PoolConfig}
use agenttier.WarmPool.Scaling.{
  Cluster, PoolEnv, in_pool, pool_pods, without_pod, delete_some, scale_down, pool_pod_name,
  pool_pvc_name, create_pool_pod, reconcile_pool,
}

-- No two pods have the same name.
abbrev pub NamesDiffer : List PoolPod → Type 0
NamesDiffer [] = Unit
NamesDiffer (p ∷ pods) = All (λ (q : PoolPod). q.name ≢ p.name) pods × NamesDiffer pods

All-keep :
    (P : PoolPod → Type 0) (test : PoolPod → Bool) (pods : List PoolPod)
    → All P pods
    → All P (keep test pods)
All-keep P test [] a = tt
All-keep P test (p ∷ pods) a = elim (Bool-cases (test p)) [
  | inl pass ↦ rw pass (a.0, All-keep P test pods a.1)
  | inr miss ↦ rw miss (All-keep P test pods a.1)
]

keep-NamesDiffer :
    (test : PoolPod → Bool) (pods : List PoolPod) → NamesDiffer pods → NamesDiffer (keep test pods)
keep-NamesDiffer test [] d = tt
keep-NamesDiffer test (p ∷ pods) d = elim (Bool-cases (test p)) [
  | inl pass ↦ rw pass (All-keep _ test pods d.0, keep-NamesDiffer test pods d.1)
  | inr miss ↦ rw miss (keep-NamesDiffer test pods d.1)
]

abbrev named_else : String → PoolPod → Bool
named_else name p = not (str_eq p.name name)

-- Without a pod of that name nothing is removed.
keep_rest :
    (name : String) (pods : List PoolPod)
    → All (λ (q : PoolPod). q.name ≢ name) pods
    → keep (named_else name) pods ≡ pods
keep_rest name [] a = refl
keep_rest name (p ∷ pods) a = ground (arith, keep_rest name pods a.1, eq_iff p.name name)

pub All-In :
    (P : PoolPod → Type 0) (q : PoolPod) (pods : List PoolPod) → All P pods → In q pods → P q
All-In P q (p ∷ pods) a (inl same) = subst P (sym same) a.0
All-In P q (p ∷ pods) a (inr later) = All-In P q pods a.1 later
All-In P q [] a m = absurd m

-- The deletion of one pod takes just one from the pods that pass a test that it passes.
count-without :
    (test : PoolPod → Bool) (pod : PoolPod) (pods : List PoolPod)
    → NamesDiffer pods
    → In pod pods
    → test pod ≡ true
    → length (keep test pods) ≡ suc (length (keep test (keep (named_else pod.name) pods)))
count-without test pod [] d m t = absurd m
count-without test pod (p ∷ pods) d (inl same) t =
    subst
      (λ (q : PoolPod).
        length (keep test (p ∷ pods))
        ≡ suc (length (keep test (keep (named_else q.name) (p ∷ pods)))))
      (sym same)
      (let passes : test p ≡ true = subst (λ q. test q ≡ true) same t in
        ground (arith, keep_rest p.name pods d.0, eq_iff p.name p.name))
count-without test pod (p ∷ pods) d (inr later) t =
    let differs : pod.name ≢ p.name =
      All-In (λ (q : PoolPod). q.name ≢ p.name) pod pods d.0 later in
    ground (arith, count-without test pod pods d.1 later t, eq_iff p.name pod.name)

-- The pods that are to go are there, in the pool.
abbrev AreThere : String → List PoolPod → List PoolPod → Type 0
AreThere template pods targets =
    All (λ (q : PoolPod). In q pods × (in_pool template q ≡ true)) targets

-- They still are once another one has gone.
AreThere-without :
    (template : String) (p : PoolPod) (pods targets : List PoolPod)
    → All (λ (q : PoolPod). q.name ≢ p.name) targets
    → AreThere template pods targets
    → AreThere template (keep (named_else p.name) pods) targets
AreThere-without template p pods [] differ there = tt
AreThere-without template p pods (q ∷ targets) differ there =
    let differs : q.name ≢ p.name = differ.0 in
    (
      (
        (In-keep (named_else p.name) q pods).1 (there.0.0, ground (arith, eq_iff q.name p.name)),
        there.0.1,
      ),
      AreThere-without template p pods targets differ.1 there.1,
    )

AreThere-keep :
    (template : String) (pods : List PoolPod)
    → AreThere template pods (keep (in_pool template) pods)
AreThere-keep template pods =
    All-of (keep (in_pool template) pods) (λ q m. (In-keep (in_pool template) q pods).0 m)
  where
    All-of :
        (targets : List PoolPod)
        → ((q : PoolPod) → In q targets → In q pods × (in_pool template q ≡ true))
        → AreThere template pods targets
    All-of [] f = tt
    All-of (q ∷ targets) f = (f q (inl refl), All-of targets (λ r m. f r (inr m)))

module _ (env : PoolEnv) (deletes : (name : String) → env.deletes name ≡ true)
    (template : String) where
  delete_some-count :
      (targets : List PoolPod) (left : ℕ) (c : Cluster)
      → left ≤ length targets
      → NamesDiffer targets
      → NamesDiffer c.pods
      → AreThere template c.pods targets
      → length (pool_pods template (delete_some env targets left c)) + left
        ≡ length (pool_pods template c)
  unfolding delete_some
  delete_some-count [] zero c h d names there = omega arith
  delete_some-count [] (suc left) c h d names there = absurd (omega arith)
  delete_some-count (p ∷ targets) zero c h d names there = ground arith
  delete_some-count (p ∷ targets) (suc left) c h d names there = ground (
    arith,
    deletes p.name,
    count-without (in_pool template) p c.pods names there.0.0 there.0.1,
    delete_some-count targets left (without_pod env p c) (omega arith) d.1
        (keep-NamesDiffer (named_else p.name) c.pods names)
        (AreThere-without template p c.pods targets d.0 there.1),
  )

  scale_down-count :
      (target : ℕ) (c : Cluster)
      → env.lists_again ≡ true
      → NamesDiffer c.pods
      → target ≤ length (pool_pods template c)
      → length (pool_pods template (scale_down env template target c).0) ≡ target
  unfolding scale_down
  scale_down-count target c lists names h = ground (
    arith,
    lists,
    delete_some-count (pool_pods template c) (length (pool_pods template c) - target) c
        (omega arith) (keep-NamesDiffer (in_pool template) c.pods names) names
        (AreThere-keep template c.pods),
  )

-- The API server and the random source serve every call.
pub record Serves (env : PoolEnv) (suffix : String) : Type 0 where
  pub lists : env.lists ≡ true
  pub lists_again : env.lists_again ≡ true
  pub deletes : (name : String) → env.deletes name ≡ true
  pub has_template : env.has_template ≡ true
  pub draws : env.suffix ≡ some suffix
  pub creates_volume : env.creates_volume ≡ true
  pub creates_pod : env.creates_pod ≡ true

create-count :
    (env : PoolEnv) (suffix template : String) (c : Cluster)
    → Serves env suffix
    → length (pool_pods template (create_pool_pod env template c).0)
      ≡ length (pool_pods template c) + 1
unfolding create_pool_pod
create-count env suffix template c serves = ground (arith, eq_refl template)

-- Where each call is served and no two pods have the same name, one reconcile of an entry leaves one
-- pod more than there were in its pool if these are fewer than desired, and otherwise just the desired
-- number, which is none for an entry whose count is not positive.
pub reconcile_pool-count :
    (env : PoolEnv) (suffix : String) (pool : PoolConfig) (c : Cluster)
    → Serves env suffix
    → NamesDiffer c.pods
    → let now = length (pool_pods pool.template c) in
      length (pool_pods pool.template (reconcile_pool env pool c).0)
      ≡ (if ltb now (pos_part pool.desired_count) then now + 1 else pos_part pool.desired_count)
unfolding reconcile_pool
reconcile_pool-count env suffix pool c serves names =
    let down = scale_down-count env serves.deletes pool.template in
    ground (
      arith,
      create-count env suffix pool.template c serves,
      down 0 c serves.lists_again names (omega arith),
      down (pos_part pool.desired_count) c serves.lists_again names,
    )

-- Where the API server serves everything but the creation of pods, a reconcile of an entry that wants
-- more pods than there are fails, leaves the pods as they were and one volume more.
pub reconcile_pool_leaks :
    (env : PoolEnv) (suffix : String) (pool : PoolConfig) (c : Cluster)
    → env.lists ≡ true
    → env.has_template ≡ true
    → env.suffix ≡ some suffix
    → env.creates_volume ≡ true
    → env.creates_pod ≡ false
    → ltb (length (pool_pods pool.template c)) (pos_part pool.desired_count) ≡ true
    → let name = pool_pvc_name (pool_pod_name pool.template suffix) in
      reconcile_pool env pool c ≡ (record c { volumes = name ∷ c.volumes }, false)
unfolding reconcile_pool create_pool_pod
reconcile_pool_leaks env suffix pool c l t s v p more = ground arith
