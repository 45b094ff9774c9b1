-- ===== src/Lifecycle/Timeouts.antt =====
-- pkg/controller/timeout.go: effective timeouts, and when the next reconcile is due. A duration is a
-- number of nanoseconds, an instant one since a fixed origin; each call that reads the clock takes
-- its reading as `now`. The durations of a spec are far from the limits of 64 bits.
pub mod Deadlines
use agenttier.Prelude.{ℕ, ◌*◌, Bool, true, false, ◌||◌, ◌&&◌, not, Option, none, some}
use agenttier.Prelude.{if◌then◌else◌}
use agenttier.Prelude.Int.{ℤ, pos, sub_ℕ, ◌+ℤ◌, ◌-ℤ◌, ltb_ℤ, leb_ℤ, is_zero_ℤ}

abbrev pub second : ℤ
second = pos 1000000000

abbrev pub default_grace_period : ℤ
default_grace_period = pos 300000000000

-- DefaultRequeueDelay of sandbox_controller.go, 30 seconds
abbrev pub default_requeue_delay : ℤ
default_requeue_delay = pos 30000000000

pub record TimeoutConfig : Type 0 where
  pub idle_timeout : ℤ
  pub max_runtime : ℤ
  pub grace_period : ℤ

unfoldable pub resolve_effective_timeout : ℤ → ℤ → Bool → ℤ
resolve_effective_timeout sandbox_value governance_max allows_infinite =
    if is_zero_ℤ sandbox_value
    then (if allows_infinite || is_zero_ℤ governance_max then pos 0 else governance_max)
    else (if is_zero_ℤ governance_max
        then sandbox_value
        else (if ltb_ℤ sandbox_value governance_max then sandbox_value else governance_max))

abbrev pub duration_from_spec : Option ℤ → ℤ
duration_from_spec none = pos 0
duration_from_spec (some d) = d

-- The arguments are `Spec.IdleTimeout`, `Spec.Timeout` and the two governance limits.
unfoldable pub resolve_timeouts : Option ℤ → Option ℤ → ℤ → ℤ → Bool → TimeoutConfig
unfolding resolve_effective_timeout
resolve_timeouts idle timeout governance_max_timeout governance_max_idle allows_infinite = record {
  idle_timeout =
      resolve_effective_timeout (duration_from_spec idle) governance_max_idle allows_infinite;
  max_runtime =
      resolve_effective_timeout (duration_from_spec timeout) governance_max_timeout allows_infinite;
  grace_period = default_grace_period;
}

-- `time.Since(t)`
abbrev pub since : ℕ → ℕ → ℤ
since now t = sub_ℕ now t

unfoldable pub is_idle : ℕ → Option ℕ → ℤ → Bool
is_idle now none timeout = false
is_idle now (some last_activity) timeout =
    if is_zero_ℤ timeout then false else leb_ℤ timeout (since now last_activity)

unfoldable pub is_expired : ℕ → Option ℕ → ℤ → Bool
is_expired now none timeout = false
is_expired now (some started_at) timeout =
    if is_zero_ℤ timeout then false else leb_ℤ timeout (since now started_at)

unfoldable pub time_until_idle : ℕ → Option ℕ → ℤ → ℤ
time_until_idle now none timeout = pos 0
time_until_idle now (some last_activity) timeout =
    let remaining = timeout -ℤ since now last_activity in
    if is_zero_ℤ timeout then pos 0 else (if ltb_ℤ remaining (pos 0) then pos 0 else remaining)

unfoldable pub time_until_expiry : ℕ → Option ℕ → ℤ → ℤ
time_until_expiry now none timeout = pos 0
time_until_expiry now (some started_at) timeout =
    let remaining = timeout -ℤ since now started_at in
    if is_zero_ℤ timeout then pos 0 else (if ltb_ℤ remaining (pos 0) then pos 0 else remaining)

-- One of the two checks of NextRequeueDelay: a remaining time lowers the delay found so far.
unfoldable pub lower_delay : ℤ → ℤ → ℤ → ℤ
lower_delay limit remaining min_delay =
    if ltb_ℤ (pos 0) limit && (ltb_ℤ (pos 0) remaining && ltb_ℤ remaining min_delay)
    then remaining
    else min_delay

unfoldable pub next_requeue_delay : ℕ → TimeoutConfig → Option ℕ → Option ℕ → ℤ
unfolding time_until_idle time_until_expiry ◌+ℤ◌
next_requeue_delay now config last_activity started_at =
    let idle_remaining = time_until_idle now last_activity config.idle_timeout in
    let runtime_remaining = time_until_expiry now started_at config.max_runtime in
    lower_delay config.max_runtime runtime_remaining
      (lower_delay config.idle_timeout idle_remaining default_requeue_delay)
    +ℤ second
