-- ===== src/WarmPool/Config/Counts.antt =====
-- What the status counts.
use agenttier.Prelude.{
  ◌+◌, String, Bool, not, ◌&&◌, List, [], ◌∷◌, ◌≡◌, ◌≢◌, refl, arith, str_eq, eq_iff, length, keep,
  All, map, some, ◌⊎◌, ◌∙◌,
}
use agenttier.Prelude.Int.{pos}
use agenttier.WarmPool.Pods.{PoolPod, is_pod_ready}
use agenttier.WarmPool.Config.{
  Config, normalize, PoolConfig, PoolStatus, Count, counted, bucket, no_counts, pool_status,
  with_legacy, get_status, status_from_config,
}

abbrev pub ready_in : String → PoolPod → Bool
ready_in k pod = str_eq k pod.template && is_pod_ready pod

abbrev pub pending_in : String → PoolPod → Bool
pending_in k pod = str_eq k pod.template && not (is_pod_ready pod)

bucket_from :
    (k : String) (pods : List PoolPod) (counts : String → Count)
    → k ≢ ""
    → ((bucket pods counts k).ready ≡ (counts k).ready + length (keep (ready_in k) pods))
      × ((bucket pods counts k).pending ≡ (counts k).pending + length (keep (pending_in k) pods))
unfolding bucket
bucket_from k [] counts named = (omega arith, omega arith)
bucket_from k (pod ∷ pods) counts named = ground (
  arith,
  bucket_from k pods (counted pod counts) named,
  eq_iff pod.template "",
  eq_iff k pod.template,
)

-- The live state of one configured pool, by counting its pods.
abbrev pub described : List PoolPod → PoolConfig → PoolStatus
described pods p = record {
  template = p.template;
  desired_count = p.desired_count;
  ready_count = length (keep (ready_in p.template) pods);
  pending_count = length (keep (pending_in p.template) pods);
}

statuses :
    (pods : List PoolPod) (pools : List PoolConfig)
    → All (λ (p : PoolConfig). p.template ≢ "") pools
    → map (pool_status (bucket pods no_counts)) pools ≡ map (described pods) pools
statuses pods [] named = refl
statuses pods (p ∷ pools) named =
    ground (arith, bucket_from p.template pods no_counts named.0, statuses pods pools named.1)

with_legacy-pools : (pools : List PoolStatus) → (with_legacy pools).pools ≡ pools
with_legacy-pools [] = refl
with_legacy-pools (p ∷ []) = refl
with_legacy-pools (p ∷ q ∷ pools) = refl

-- The status of a stored configuration whose pools all name a template has one entry for each pool of
-- the normalized configuration, in order, with the numbers of the listed pods of that template that
-- are ready and that are not.
pub get_status_lem :
    (c : Config) (pods : List PoolPod)
    → All (λ (p : PoolConfig). p.template ≢ "") (normalize c).pools
    → (get_status (some c) (some pods)).pools ≡ map (described pods) (normalize c).pools
unfolding get_status status_from_config
get_status_lem c pods named = with_legacy-pools _ ∙ statuses pods (normalize c).pools named

-- A normalized configuration says nothing any more in the two legacy fields, unless it has no pools
-- at all; and to normalize it again changes nothing.
pub normalize-normalize :
    (c : Config)
    → (normalize (normalize c) ≡ normalize c)
      × (((normalize c).pools ≡ [])
          ⊎ (((normalize c).template ≡ "") × ((normalize c).desired_count ≡ pos 0)))
unfolding normalize
normalize-normalize c = ground arith
