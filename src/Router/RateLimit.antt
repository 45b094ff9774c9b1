-- ===== src/Router/RateLimit.antt =====
-- pkg/router/ratelimit.go: the token buckets per client address and per user. The buckets are those
-- of golang.org/x/time/rate, an interface here; a map is the list of its entries.
pub mod Maps
pub mod Isolation
pub mod Fairness
pub mod Bursts
pub mod Cost
use Prim.Native.String
use agenttier.Prelude.{
  ℕ, ◌+◌, ◌-◌, ◌*◌, ◌/◌, ◌≤◌, String, Bool, true, false, not, ◌&&◌, ◌||◌, Option, none, some, List,
  [], ◌∷◌, if◌then◌else◌, str_eq, ltb, leb, ◌==◌, length, codes, has_prefix,
}
use agenttier.Prelude.Int.{ℤ, pos, negsuc}
use agenttier.Webhook.Subscription.{lookup}

-- The rate package: limits, and limiters with the calls that the code makes of them.
pub record Limiters : Type 1 where
  -- A `float64` of the configuration.
  pub Rate : Type 0
  pub is_positive : Rate → Bool
  -- `int(perSec)`
  pub whole : Rate → ℤ
  pub Limiter : Type 0
  pub new_limiter : Rate → ℕ → Limiter
  -- `AllowN(now, n)`
  pub allow_n : Limiter → ℕ → ℕ → Bool × Limiter
  -- `ReserveN(now, n)`, its `Delay()` and its `Cancel()`.
  pub reserve_and_cancel : Limiter → ℕ → ℕ → ℕ × Limiter

module _ (L : Limiters) where
  open L use {Rate, is_positive, whole, Limiter, new_limiter, allow_n, reserve_and_cancel}

  pub record RateLimitConfig : Type 0 where
    pub per_ip_rate : Rate
    pub per_ip_burst : ℤ
    pub per_user_rate : Rate
    pub per_user_burst : ℤ
    pub cleanup_interval : ℕ
    pub limiter_ttl : ℕ
    pub trust_forwarded_headers : Bool

  pub record LimiterEntry : Type 0 where
    pub limiter : Limiter
    pub last_seen : ℕ

  pub record RateLimiter : Type 0 where
    pub cfg : RateLimitConfig
    pub by_ip : List (String × LimiterEntry)
    pub by_user : List (String × LimiterEntry)

  -- `newRateLimiter`, its defaults in nanoseconds.
  unfoldable pub new_rate_limiter : RateLimitConfig → RateLimiter
  new_rate_limiter cfg = record {
    cfg = record cfg {
      cleanup_interval = if cfg.cleanup_interval == 0 then 600000000000 else cfg.cleanup_interval;
      limiter_ttl = if cfg.limiter_ttl == 0 then 1800000000000 else cfg.limiter_ttl;
    };
    by_ip = [];
    by_user = [];
  }

  -- The entries that were seen at the cutoff or later.
  unfoldable pub fresh : ℕ → List (String × LimiterEntry) → List (String × LimiterEntry)
  fresh cutoff [] = []
  fresh cutoff ((k, e) ∷ m) =
      if ltb e.last_seen cutoff then fresh cutoff m else (k, e) ∷ fresh cutoff m

  unfoldable pub evict_stale : ℕ → RateLimiter → RateLimiter
  evict_stale now rl =
      let cutoff = now - rl.cfg.limiter_ttl in
      record rl { by_ip = fresh cutoff rl.by_ip; by_user = fresh cutoff rl.by_user }

  -- `max(int(perSec), 1)`, for a burst that is not positive.
  abbrev pub at_least_one : ℤ → ℕ
  at_least_one (pos n) = if leb n 1 then 1 else n
  at_least_one (negsuc n) = 1

  abbrev pub burst_of : ℤ → Rate → ℕ
  burst_of (pos n) per_sec = if n == 0 then at_least_one (whole per_sec) else n
  burst_of (negsuc n) per_sec = at_least_one (whole per_sec)

  -- The limiter of a key, which a map without the key gets at the end.
  unfoldable pub get_or_create :
      List (String × LimiterEntry) → String → Rate → ℤ → ℕ → Limiter × List (String × LimiterEntry)
  get_or_create [] key per_sec burst now =
      let l = new_limiter per_sec (burst_of burst per_sec) in
      (l, (key, record { limiter = l; last_seen = now }) ∷ [])
  get_or_create ((k, e) ∷ m) key per_sec burst now =
      let rest = get_or_create m key per_sec burst now in
      if str_eq k key
      then (e.limiter, (k, record e { last_seen = now }) ∷ m)
      else (rest.0, (k, e) ∷ rest.1)

  -- What a call through the pointer leaves in the entry.
  unfoldable pub write_back :
      String → Limiter → List (String × LimiterEntry) → List (String × LimiterEntry)
  write_back key l [] = []
  write_back key l ((k, e) ∷ m) =
      if str_eq k key then (k, record e { limiter = l }) ∷ m else (k, e) ∷ write_back key l m

  pub data Gate : Type 0 where
    allowed : Gate
    retry_after : ℕ → Gate

  abbrev pub charged : Bool × Limiter → ℕ → ℕ → Gate × Limiter
  charged (true, l) now cost = (allowed, l)
  charged (false, l) now cost =
      let (delay, l') = reserve_and_cancel l now cost in (retry_after delay, l')

  -- One of the two blocks of gateRequestN: the map's entry is asked for the cost.
  unfoldable pub gate_key :
      Rate
      → ℤ
      → ℕ
      → ℕ
      → ℕ
      → String
      → List (String × LimiterEntry)
      → Gate × List (String × LimiterEntry)
  gate_key per_sec burst seen now cost key m =
      let (l, m') = get_or_create m key per_sec burst seen in
      let (gate, l') = charged (allow_n l now cost) now cost in (gate, write_back key l' m')

  -- A map is asked only where its rate is set and there is a key.
  unfoldable pub gate_layer :
      Rate
      → ℤ
      → ℕ
      → ℕ
      → ℕ
      → String
      → List (String × LimiterEntry)
      → Gate × List (String × LimiterEntry)
  gate_layer per_sec burst seen now cost key m =
      if is_positive per_sec && not (str_eq key "")
      then gate_key per_sec burst seen now cost key m
      else (allowed, m)

  -- A cost below one counts as one.
  abbrev pub normal_cost : ℤ → ℕ
  normal_cost (pos n) = if n == 0 then 1 else n
  normal_cost (negsuc n) = 1

  -- The instants that the two blocks read: the entry's, then the limiter's.
  pub record Clock : Type 0 where
    pub ip_seen : ℕ
    pub ip_now : ℕ
    pub user_seen : ℕ
    pub user_now : ℕ

  -- The user's block runs only where the address's let the request through.
  abbrev pub then_user :
      RateLimiter → Clock → String → ℕ → Gate × List (String × LimiterEntry) → Gate × RateLimiter
  then_user rl at user_sub cost (retry_after delay, by_ip) =
      (retry_after delay, record rl { by_ip = by_ip })
  then_user rl at user_sub cost (allowed, by_ip) =
      let (gate, by_user) =
        gate_layer rl.cfg.per_user_rate rl.cfg.per_user_burst at.user_seen at.user_now cost user_sub
          rl.by_user in
      (gate, record rl { by_ip = by_ip; by_user = by_user })

  unfoldable pub gate_request_n : RateLimiter → Clock → String → String → ℤ → Gate × RateLimiter
  gate_request_n rl at ip user_sub cost = then_user rl at user_sub (normal_cost cost) (
      gate_layer rl.cfg.per_ip_rate rl.cfg.per_ip_burst at.ip_seen at.ip_now (normal_cost cost) ip
        rl.by_ip)

  unfoldable pub gate_request : RateLimiter → Clock → String → String → Gate × RateLimiter
  gate_request rl at ip user_sub = gate_request_n rl at ip user_sub (pos 1)

-- `/healthz`, `/readyz`, `/metrics` and the terminals are never throttled.
unfoldable pub is_exempt_from_rate_limit : String → Bool
is_exempt_from_rate_limit path =
    str_eq path "/healthz"
    || (str_eq path "/readyz" || (str_eq path "/metrics" || has_prefix (codes path) (codes "/ws/")))

-- The seconds of the header Retry-After.
unfoldable pub retry_after_seconds : ℕ → ℕ
retry_after_seconds delay = delay / 1000000000 + 1
