-- ===== src/Router/RateLimit/Isolation.antt =====
-- Whose buckets a request touches, and that a sweep does not give a spent budget back.
use agenttier.Prelude.{
  ℕ, ◌+◌, ◌-◌, ◌≤◌, String, true, false, some, List, str_eq, ◌≡◌, ◌≢◌, sym, ap, ◌∙◌, arith, eq_iff,
  name_cases, inl, inr,
}
use agenttier.Prelude.Int.{ℤ}
use agenttier.Webhook.Subscription.{lookup}
use agenttier.Router.RateLimit.{
  Limiters, LimiterEntry, RateLimiter, Clock, allowed, gate_key, gate_layer, gate_request_n,
  normal_cost, charged, then_user, evict_stale, get_or_create,
}
use agenttier.Router.RateLimit.Maps.{
  lookup-get_or_create_other, lookup-write_back_other, lookup-write_back_self, lookup-fresh,
}

module _ (L : Limiters) where
  open L use {Rate, Limiter, is_positive}

  gate_key_other :
      (per_sec : Rate) (burst : ℤ) (seen now cost : ℕ) (key j : String)
      (m : List (String × LimiterEntry L))
      → str_eq key j ≡ false
      → lookup j (gate_key L per_sec burst seen now cost key m).1 ≡ lookup j m
  unfolding gate_key
  gate_key_other per_sec burst seen now cost key j m other =
      let (l, m') = get_or_create L m key per_sec burst seen in
      lookup-write_back_other L per_sec burst seen key j _ _ other
      ∙ lookup-get_or_create_other L per_sec burst seen key j m other

  gate_layer_other :
      (per_sec : Rate) (burst : ℤ) (seen now cost : ℕ) (key j : String)
      (m : List (String × LimiterEntry L))
      → j ≢ key
      → lookup j (gate_layer L per_sec burst seen now cost key m).1 ≡ lookup j m
  unfolding gate_layer
  gate_layer_other per_sec burst seen now cost key j m differ = elim (name_cases key j) [
    | inl same ↦ absurd (differ (sym same))
    | inr other ↦ ground (arith, gate_key_other per_sec burst seen now cost key j m other)
  ]

  -- A request leaves the limiters of all other addresses and of all other users as they were, and the
  -- configuration too.
  pub gate_request_n_other :
      (rl : RateLimiter L) (at : Clock L) (ip user_sub : String) (cost : ℤ)
      (other_ip other_user : String)
      → other_ip ≢ ip
      → other_user ≢ user_sub
      → (lookup other_ip (gate_request_n L rl at ip user_sub cost).1.by_ip
          ≡ lookup other_ip rl.by_ip)
        × (lookup other_user (gate_request_n L rl at ip user_sub cost).1.by_user
            ≡ lookup other_user rl.by_user)
        × ((gate_request_n L rl at ip user_sub cost).1.cfg ≡ rl.cfg)
  unfolding gate_request_n
  gate_request_n_other rl at ip user_sub cost other_ip other_user ip_differs user_differs = ground (
    arith,
    gate_layer_other rl.cfg.per_ip_rate rl.cfg.per_ip_burst at.ip_seen at.ip_now
        (normal_cost L cost) ip other_ip rl.by_ip ip_differs,
    gate_layer_other rl.cfg.per_user_rate rl.cfg.per_user_burst at.user_seen at.user_now
        (normal_cost L cost) user_sub other_user rl.by_user user_differs,
  )

  -- The entry of a key that was asked: its limiter was just used.
  asked :
      (per_sec : Rate) (burst : ℤ) (seen now cost : ℕ) (key : String)
      (m : List (String × LimiterEntry L))
      → is_positive per_sec ≡ true
      → key ≢ ""
      → (l : Limiter) × (lookup key (gate_layer L per_sec burst seen now cost key m).1
          ≡ some (record { limiter = l; last_seen = seen }))
  unfolding gate_layer gate_key
  asked per_sec burst seen now cost key m limited named = elim (name_cases key "") [
    | inl same ↦ absurd (named same)
    | inr some_key ↦
        rw (limited, some_key)
          (
            (charged L (L.allow_n (get_or_create L m key per_sec burst seen).0 now cost) now
                cost).1,
            lookup-write_back_self L per_sec burst seen key _ m,
          )
  ]

  unnamed :
      (per_sec : Rate) (burst : ℤ) (seen now cost : ℕ) (m : List (String × LimiterEntry L))
      → gate_layer L per_sec burst seen now cost "" m ≡ (allowed, m)
  unfolding gate_layer
  unnamed per_sec burst seen now cost m = ground (arith, eq_iff "" "")

  -- Without an address a request is the user's block alone.
  pub gate_request_n_user :
      (rl : RateLimiter L) (at : Clock L) (user_sub : String) (cost : ℤ)
      → gate_request_n L rl at "" user_sub cost ≡ (
          let (gate, by_user) =
            gate_layer L rl.cfg.per_user_rate rl.cfg.per_user_burst at.user_seen at.user_now
              (normal_cost L cost)
              user_sub
              rl.by_user in
          (gate, record rl { by_user = by_user }))
  unfolding gate_request_n
  gate_request_n_user rl at user_sub cost = ap (then_user L rl at user_sub (normal_cost L cost)) (
      unnamed rl.cfg.per_ip_rate rl.cfg.per_ip_burst at.ip_seen at.ip_now (normal_cost L cost)
        rl.by_ip)

  -- A sweep that comes within the time to live of a user's request, where users are limited, keeps
  -- the limiter that the request left: what was spent is not given back.
  pub evict_stale-gate_request_n :
      (rl : RateLimiter L) (at : Clock L) (user_sub : String) (cost : ℤ) (now : ℕ)
      → is_positive rl.cfg.per_user_rate ≡ true
      → user_sub ≢ ""
      → now ≤ at.user_seen + rl.cfg.limiter_ttl
      → (l : Limiter) × (lookup user_sub (gate_request_n L rl at "" user_sub cost).1.by_user
          ≡ some (record { limiter = l; last_seen = at.user_seen }))
        × (lookup user_sub (evict_stale L now (gate_request_n L rl at "" user_sub cost).1).by_user
            ≡ some (record { limiter = l; last_seen = at.user_seen }))
  unfolding evict_stale
  evict_stale-gate_request_n rl at user_sub cost now limited named soon =
      let (l, found) =
        asked rl.cfg.per_user_rate rl.cfg.per_user_burst at.user_seen at.user_now
          (normal_cost L cost) user_sub rl.by_user limited named in
      rw (gate_request_n_user rl at user_sub cost) (
        l,
        found,
        lookup-fresh L (now - rl.cfg.limiter_ttl) user_sub _
            (record { limiter = l; last_seen = at.user_seen }) found (omega arith),
      )
