-- ===== src/Lifecycle/Timeouts/Deadlines.antt =====
-- Effective limits, and when a deadline is noticed.
use agenttier.Prelude.{
  ℕ, zero, suc, ◌+◌, ◌<◌, min, Bool, true, false, Option, none, some, ◌≡◌, refl, sym, ◌↔◌, ◌⊎◌, inl,
  inr, arith,
}
use agenttier.Prelude.Int.{ℤ, pos, ◌≤ℤ◌, ◌<ℤ◌, ◌+ℤ◌, ◌-ℤ◌, +ℤ_parts}
use agenttier.Lifecycle.Timeouts.{
  second, default_requeue_delay, TimeoutConfig, resolve_effective_timeout, duration_from_spec,
  resolve_timeouts, is_idle, is_expired, time_until_idle, time_until_expiry, lower_delay,
  next_requeue_delay,
}

-- What a duration means as a limit: 0 is no limit at all.
abbrev pub limit_of : ℕ → Option ℕ
limit_of zero = none
limit_of (suc n) = some (suc n)

abbrev pub min_limit : Option ℕ → Option ℕ → Option ℕ
min_limit none b = b
min_limit (some a) none = some a
min_limit (some a) (some b) = some (min a b)

-- Where governance does not allow infinite timeouts, the effective timeout of two durations that are
-- not negative is the smaller of the two limits, with 0 read as no limit.
pub resolve_effective_timeout-min :
    (v m : ℕ)
    → (r : ℕ) × (resolve_effective_timeout (pos v) (pos m) false ≡ pos r)
      × (limit_of r ≡ min_limit (limit_of v) (limit_of m))
unfolding resolve_effective_timeout
resolve_effective_timeout-min zero zero = (0, ground arith, refl)
resolve_effective_timeout-min zero (suc m) = (suc m, ground arith, refl)
resolve_effective_timeout-min (suc v) zero = (suc v, ground arith, refl)
resolve_effective_timeout-min (suc v) (suc m) = (min (suc v) (suc m), ground arith, ground arith)

-- Whatever the sandbox asks for, a positive governance maximum bounds both effective timeouts, except
-- where the sandbox asks for no limit and governance allows that; then the timeout is infinite.
pub resolve_timeouts_capped :
    (idle timeout : Option ℤ) (max_timeout max_idle : ℤ) (allows : Bool)
    → pos 0 <ℤ max_timeout
    → pos 0 <ℤ max_idle
    → let c = resolve_timeouts idle timeout max_timeout max_idle allows in
      ((c.idle_timeout ≤ℤ max_idle)
        × (c.idle_timeout ≡ pos 0 → (allows ≡ true) × (duration_from_spec idle ≡ pos 0)))
      × ((c.max_runtime ≤ℤ max_timeout)
          × (c.max_runtime ≡ pos 0 → (allows ≡ true) × (duration_from_spec timeout ≡ pos 0)))
unfolding resolve_timeouts
resolve_timeouts_capped idle timeout max_timeout max_idle allows h k = ground arith

-- With a clock reading `now`: a sandbox with some recorded activity and a positive timeout is idle
-- exactly when no time is left until it becomes idle.
pub is_idle_iff :
    (now last timeout : ℕ)
    → 0 < timeout
    → (is_idle now (some last) (pos timeout) ≡ true)
      ↔ (time_until_idle now (some last) (pos timeout) ≡ pos 0)
unfolding is_idle time_until_idle ◌-ℤ◌
is_idle_iff now last timeout h = ground arith

-- A check lowers the delay to the remaining time, if the limit and that time are positive.
lower_delay_cases :
    (limit remaining d : ℤ)
    → pos 0 <ℤ d
    → (lower_delay limit remaining d ≤ℤ d)
      × (pos 0 <ℤ lower_delay limit remaining d)
      × ((lower_delay limit remaining d ≡ d)
          ⊎ ((lower_delay limit remaining d ≡ remaining) × (pos 0 <ℤ limit) × (pos 0 <ℤ remaining)))
unfolding lower_delay
lower_delay_cases limit remaining d h = ground arith

default_wait : (d : ℕ) → default_requeue_delay +ℤ second ≡ pos d → d ≡ 31000000000
unfolding ◌+ℤ◌
default_wait d h = ground arith

-- The next reconcile is due after more than one second and within 31.
pub next_requeue_delay_bounds :
    (now : ℕ) (c : TimeoutConfig) (last started : Option ℕ)
    → (second <ℤ next_requeue_delay now c last started)
      × (next_requeue_delay now c last started ≤ℤ pos 31000000000)
unfolding next_requeue_delay
next_requeue_delay_bounds now c last started =
    let idle_left = time_until_idle now last c.idle_timeout in
    let run_left = time_until_expiry now started c.max_runtime in
    let (low, positive, _) =
      lower_delay_cases c.idle_timeout idle_left default_requeue_delay (omega arith) in
    let (lower, still, _) =
      lower_delay_cases c.max_runtime run_left
        (lower_delay c.idle_timeout idle_left default_requeue_delay) positive in
    (omega (arith, +ℤ_parts), omega (arith, +ℤ_parts))

idle_by_then :
    (now : ℕ) (last : Option ℕ) (limit r : ℤ) (d : ℕ)
    → pos 0 <ℤ limit
    → time_until_idle now last limit ≡ r
    → pos 0 <ℤ r
    → pos d ≡ r +ℤ second
    → is_idle (now + d) last limit ≡ true
unfolding is_idle time_until_idle ◌-ℤ◌ ◌+ℤ◌
idle_by_then now none limit r d h e p w = ground arith
idle_by_then now (some last) limit r d h e p w = ground arith

expired_by_then :
    (now : ℕ) (started : Option ℕ) (limit r : ℤ) (d : ℕ)
    → pos 0 <ℤ limit
    → time_until_expiry now started limit ≡ r
    → pos 0 <ℤ r
    → pos d ≡ r +ℤ second
    → is_expired (now + d) started limit ≡ true
unfolding is_expired time_until_expiry ◌-ℤ◌ ◌+ℤ◌
expired_by_then now none limit r d h e p w = ground arith
expired_by_then now (some started) limit r d h e p w = ground arith

-- A reconcile that comes when NextRequeueDelay says either comes after the default 31 seconds, or
-- finds the sandbox idle or expired: no deadline is missed in between.
pub next_requeue_delay_notices :
    (now : ℕ) (c : TimeoutConfig) (last started : Option ℕ) (d : ℕ)
    → next_requeue_delay now c last started ≡ pos d
    → (d ≡ 31000000000)
      ⊎ ((is_idle (now + d) last c.idle_timeout ≡ true)
          ⊎ (is_expired (now + d) started c.max_runtime ≡ true))
unfolding next_requeue_delay
next_requeue_delay_notices now c last started d h =
    let idle_left = time_until_idle now last c.idle_timeout in
    let run_left = time_until_expiry now started c.max_runtime in
    let (_, positive, idle_case) =
      lower_delay_cases c.idle_timeout idle_left default_requeue_delay (omega arith) in
    let (_, _, run_case) =
      lower_delay_cases c.max_runtime run_left
        (lower_delay c.idle_timeout idle_left default_requeue_delay) positive in
    elim run_case [
      | inr (e, limit, left) ↦ inr (
          inr (
            expired_by_then now started c.max_runtime run_left d limit refl left (sym (rw e at h))))
      | inl e ↦ elim idle_case [
        | inr (f, limit, left) ↦ inr (
            inl (
              idle_by_then now last c.idle_timeout idle_left d limit refl left
                (sym (rw (e, f) at h))))
        | inl f ↦ inl (default_wait d (rw (e, f) at h))
      ]
    ]
