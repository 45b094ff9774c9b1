-- ===== src/Router/RateLimit/Bursts.antt =====
-- The bursts of the limiters that the maps come to hold.
use agenttier.Prelude.{
  ℕ, ◌<◌, String, true, false, List, [], ◌∷◌, str_eq, ltb, All, ◌≡◌, ◌≢◌, refl, ◌∙◌, arith, inl,
  inr, not, ◌&&◌, Bool-cases, name_cases,
}
use agenttier.Prelude.Int.{ℤ, pos}
use agenttier.Router.RateLimit.{
  Limiters, LimiterEntry, RateLimitConfig, RateLimiter, Clock, Gate, allowed, retry_after, gate_key,
  gate_layer, gate_request_n, normal_cost, charged, get_or_create, write_back, fresh, evict_stale,
  new_rate_limiter, burst_of, then_user,
}

-- What the rate package documents of a limiter's burst: it is what the limiter was made with, no call
-- changes it, and AllowN never lets more events than the burst through.
pub record HasBursts (L : Limiters) : Type 0 where
  pub burst : L.Limiter → ℕ
  pub burst-new_limiter : (r : L.Rate) (b : ℕ) → burst (L.new_limiter r b) ≡ b
  pub burst-allow_n : (l : L.Limiter) (now n : ℕ) → burst (L.allow_n l now n).1 ≡ burst l
  pub burst-reserve_and_cancel :
      (l : L.Limiter) (now n : ℕ) → burst (L.reserve_and_cancel l now n).1 ≡ burst l
  pub refused : (l : L.Limiter) (now n : ℕ) → burst l < n → (L.allow_n l now n).0 ≡ false

-- What a rate limiter goes through: requests and sweeps.
pub data Run (L : Limiters) (rl : RateLimiter L) : RateLimiter L → Type 0 where
  here : Run L rl rl
  gated :
      {r : RateLimiter L} (at : Clock L) (ip user_sub : String) (cost : ℤ)
      → Run L rl r
      → Run L rl (gate_request_n L r at ip user_sub cost).1
  swept : {r : RateLimiter L} (now : ℕ) → Run L rl r → Run L rl (evict_stale L now r)

module _ (L : Limiters) (laws : HasBursts L) where
  open L use {Rate, Limiter, is_positive}
  open laws use {burst, burst-new_limiter, burst-allow_n, burst-reserve_and_cancel, refused}

  abbrev OfBurst : ℕ → List (String × LimiterEntry L) → Type 0
  OfBurst b m = All (λ (k, e). burst e.limiter ≡ b) m

  module _ (per_sec : Rate) (configured : ℤ) (now : ℕ) (key : String) where
    get_or_create-OfBurst :
        (m : List (String × LimiterEntry L))
        → OfBurst (burst_of L configured per_sec) m
        → (burst (get_or_create L m key per_sec configured now).0 ≡ burst_of L configured per_sec)
          × OfBurst (burst_of L configured per_sec) (get_or_create L m key per_sec configured now).1
    unfolding get_or_create
    get_or_create-OfBurst [] all = (
      burst-new_limiter per_sec (burst_of L configured per_sec),
      (burst-new_limiter per_sec (burst_of L configured per_sec), tt),
    )
    get_or_create-OfBurst ((k, e) ∷ m) all =
        let ih = get_or_create-OfBurst m all.1 in
        elim (Bool-cases (str_eq k key)) [
          | inl same ↦ rw same (all.0, (all.0, all.1))
          | inr other ↦ rw other (ih.0, (all.0, ih.1))
        ]

  write_back-OfBurst :
      (b : ℕ) (key : String) (l : Limiter) (m : List (String × LimiterEntry L))
      → burst l ≡ b
      → OfBurst b m
      → OfBurst b (write_back L key l m)
  unfolding write_back
  write_back-OfBurst b key l [] e all = tt
  write_back-OfBurst b key l ((k, d) ∷ m) e all =
      let ih = write_back-OfBurst b key l m e all.1 in
      elim (Bool-cases (str_eq k key)) [
        | inl same ↦ rw same (e, all.1)
        | inr other ↦ rw other (all.0, ih)
      ]

  fresh-OfBurst :
      (b cutoff : ℕ) (m : List (String × LimiterEntry L))
      → OfBurst b m
      → OfBurst b (fresh L cutoff m)
  unfolding fresh
  fresh-OfBurst b cutoff [] all = tt
  fresh-OfBurst b cutoff ((k, e) ∷ m) all =
      let ih = fresh-OfBurst b cutoff m all.1 in
      elim (Bool-cases (ltb e.last_seen cutoff)) [
        | inl stale ↦ rw stale ih
        | inr kept ↦ rw kept (all.0, ih)
      ]

  burst-charged :
      (l : Limiter) (now cost : ℕ) → burst (charged L (L.allow_n l now cost) now cost).1 ≡ burst l
  burst-charged l now cost =
      ground (
        arith,
        burst-allow_n l now cost,
        burst-reserve_and_cancel (L.allow_n l now cost).1 now cost,
      )

  gate_layer-OfBurst :
      (per_sec : Rate) (configured : ℤ) (seen now cost : ℕ) (key : String)
      (m : List (String × LimiterEntry L))
      → OfBurst (burst_of L configured per_sec) m
      → OfBurst
          (burst_of L configured per_sec)
          (gate_layer L per_sec configured seen now cost key m).1
  unfolding gate_layer gate_key
  gate_layer-OfBurst per_sec configured seen now cost key m all =
      elim (Bool-cases (is_positive per_sec && not (str_eq key ""))) [
        | inl asked ↦
            let (mine, others) = get_or_create-OfBurst per_sec configured seen key m all in
            rw asked (write_back-OfBurst _ key _ _ (burst-charged _ now cost ∙ mine) others)
        | inr open_to ↦ rw open_to all
      ]

  -- A cost above the burst is refused.
  gate_layer_over :
      (per_sec : Rate) (configured : ℤ) (seen now cost : ℕ) (key : String)
      (m : List (String × LimiterEntry L))
      → OfBurst (burst_of L configured per_sec) m
      → is_positive per_sec ≡ true
      → key ≢ ""
      → burst_of L configured per_sec < cost
      → (gate_layer L per_sec configured seen now cost key m).0 ≢ allowed
  unfolding gate_layer gate_key
  gate_layer_over per_sec configured seen now cost key m all limited named over h =
      let (mine, _) = get_or_create-OfBurst per_sec configured seen key m all in
      let no = refused (get_or_create L m key per_sec configured seen).0 now cost (omega arith) in
      elim (name_cases key "") [ inl same ↦ named same | inr some_key ↦ ground arith ]

  -- The users' limiters of a rate limiter have the configured burst.
  abbrev Configured : RateLimiter L → Type 0
  Configured rl = OfBurst (burst_of L rl.cfg.per_user_burst rl.cfg.per_user_rate) rl.by_user

  then_user-Configured :
      (rl : RateLimiter L) (at : Clock L) (user_sub : String) (cost : ℕ)
      (g : Gate L × List (String × LimiterEntry L))
      → Configured rl
      → Configured (then_user L rl at user_sub cost g).1
  then_user-Configured rl at user_sub cost (allowed, m) inv =
      gate_layer-OfBurst rl.cfg.per_user_rate rl.cfg.per_user_burst at.user_seen at.user_now cost
        user_sub rl.by_user inv
  then_user-Configured rl at user_sub cost (retry_after delay, m) inv = inv

  then_user-cfg :
      (rl : RateLimiter L) (at : Clock L) (user_sub : String) (cost : ℕ)
      (g : Gate L × List (String × LimiterEntry L))
      → (then_user L rl at user_sub cost g).1.cfg ≡ rl.cfg
  then_user-cfg rl at user_sub cost (allowed, m) = refl
  then_user-cfg rl at user_sub cost (retry_after delay, m) = refl

  Run-Configured :
      {rl r : RateLimiter L} → Run L rl r → Configured rl → Configured r × (r.cfg ≡ rl.cfg)
  unfolding gate_request_n evict_stale
  Run-Configured here inv = (inv, refl)
  Run-Configured (gated {r} at ip user_sub cost run) inv =
      let (before, same) = Run-Configured run inv in
      (then_user-Configured r at user_sub _ _ before, then_user-cfg r at user_sub _ _ ∙ same)
  Run-Configured (swept {r} now run) inv =
      let (before, same) = Run-Configured run inv in (fresh-OfBurst _ _ r.by_user before, same)

  then_user_over :
      (rl : RateLimiter L) (at : Clock L) (user_sub : String) (cost : ℕ)
      (g : Gate L × List (String × LimiterEntry L))
      → Configured rl
      → is_positive rl.cfg.per_user_rate ≡ true
      → user_sub ≢ ""
      → burst_of L rl.cfg.per_user_burst rl.cfg.per_user_rate < cost
      → (then_user L rl at user_sub cost g).0 ≢ allowed
  then_user_over rl at user_sub cost (allowed, m) inv limited named over =
      gate_layer_over rl.cfg.per_user_rate rl.cfg.per_user_burst at.user_seen at.user_now cost
        user_sub rl.by_user inv limited named over
  then_user_over rl at user_sub cost (retry_after delay, m) inv limited named over = λ h. cc

-- After whatever requests and sweeps since the start, a user's request that costs more than the
-- configured burst is refused, where users are limited: however long it waits.
pub Run_over_burst :
    (L : Limiters) (cfg : RateLimitConfig L) {rl : RateLimiter L} (at : Clock L)
    (ip user_sub : String) (cost : ℕ)
    → HasBursts L
    → Run L (new_rate_limiter L cfg) rl
    → L.is_positive cfg.per_user_rate ≡ true
    → user_sub ≢ ""
    → burst_of L cfg.per_user_burst cfg.per_user_rate < cost
    → (gate_request_n L rl at ip user_sub (pos cost)).0 ≢ allowed
unfolding gate_request_n new_rate_limiter
Run_over_burst L cfg {rl} at ip user_sub cost laws run limited named over =
    let (inv, same) = Run-Configured L laws run tt in
    let cost_is : normal_cost L (pos cost) ≡ cost = ground arith in
    rw cost_is
      (then_user_over L laws rl at user_sub cost _ inv (rw same limited) named (rw same over))
