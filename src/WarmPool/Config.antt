-- ===== src/WarmPool/Config.antt =====
-- Normalize, GetStatus and statusFromConfig of pool.go.
pub mod Counts
use agenttier.Prelude.{
  ℕ, ◌+◌, String, Bool, true, false, not, ◌||◌, ◌&&◌, Option, none, some, List, [], ◌∷◌,
  if◌then◌else◌, str_eq, is_empty, map,
}
use agenttier.Prelude.Int.{ℤ, pos, leb_ℤ}
use agenttier.WarmPool.Pods.{PoolPod, is_pod_ready}

pub record PoolConfig : Type 0 where
  pub template : String
  pub desired_count : ℤ

pub record Config : Type 0 where
  pub pools : List PoolConfig
  pub desired_count : ℤ
  pub template : String

unfoldable pub normalize : Config → Config
normalize c =
    if not (is_empty c.pools)
    then record c { desired_count = pos 0; template = "" }
    else (if str_eq c.template "" || leb_ℤ c.desired_count (pos 0) then c else record {
      pools = (record { template = c.template; desired_count = c.desired_count }) ∷ [];
      desired_count = pos 0;
      template = "";
    })

pub record Count : Type 0 where
  pub ready : ℕ
  pub pending : ℕ

abbrev pub add_pod : PoolPod → Count → Count
add_pod pod c =
    if is_pod_ready pod
    then record c { ready = c.ready + 1 }
    else record c { pending = c.pending + 1 }

-- One round of the loop over the pods: a pod without the template's label is skipped.
abbrev pub counted : PoolPod → (String → Count) → String → Count
counted pod counts k =
    if not (str_eq pod.template "") && str_eq k pod.template
    then add_pod pod (counts k)
    else counts k

unfoldable pub bucket : List PoolPod → (String → Count) → String → Count
bucket [] counts = counts
bucket (pod ∷ pods) counts = bucket pods (counted pod counts)

abbrev pub no_counts : String → Count
no_counts k = record { ready = 0; pending = 0 }

pub record PoolStatus : Type 0 where
  pub template : String
  pub desired_count : ℤ
  pub ready_count : ℕ
  pub pending_count : ℕ

pub record Status : Type 0 where
  pub pools : List PoolStatus
  pub desired_count : ℤ
  pub ready_count : ℕ
  pub pending_count : ℕ
  pub template : String

abbrev pub pool_status : (String → Count) → PoolConfig → PoolStatus
pool_status counts p = record {
  template = p.template;
  desired_count = p.desired_count;
  ready_count = (counts p.template).ready;
  pending_count = (counts p.template).pending;
}

-- The legacy fields are those of a single pool.
abbrev pub with_legacy : List PoolStatus → Status
with_legacy (p ∷ []) = record {
  pools = p ∷ [];
  desired_count = p.desired_count;
  ready_count = p.ready_count;
  pending_count = p.pending_count;
  template = p.template;
}
with_legacy pools = record {
  pools = pools;
  desired_count = pos 0;
  ready_count = 0;
  pending_count = 0;
  template = "";
}

unfoldable pub status_from_config : Config → (String → Count) → Status
status_from_config cfg counts = with_legacy (map (pool_status counts) cfg.pools)

-- GetStatus: the stored config, the zero one if it cannot be read, and the listed pods, `none` if the
-- call fails.
unfoldable pub get_status : Option Config → Option (List PoolPod) → Status
unfolding normalize bucket status_from_config
get_status stored listed =
    let cfg : Config = elim stored [
      | some c ↦ c
      | none ↦ record { pools = []; desired_count = pos 0; template = "" }
    ] in
    let counts : String → Count = elim listed [
      | none ↦ no_counts
      | some pods ↦ bucket pods no_counts
    ] in
    status_from_config (normalize cfg) counts
