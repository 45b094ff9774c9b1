-- ===== src/Lifecycle/Backoff.antt =====
-- calculateBackoffDelay of pkg/controller/lifecycle.go: the backoff between restarts.
use agenttier.Prelude.{
  ℕ, suc, zero, ◌*◌, ◌^◌, ◌%◌, ◌<◌, ◌≤◌, ◌+◌, dec_lt, subst, ◌≡◌, refl, min, Bool, true, ◌&&◌,
  arith,
}
use agenttier.Prelude.{if◌then◌else◌}
use agenttier.Prelude.Int.{ℤ, pos, negsuc, ltb_ℤ, eqb_ℤ, eqb_ℤ→eq, int64}

-- `10 << uint(n)` and the product with time.Second wrap around at 64 bits; `restart_count` is not
-- negative, since the controller only adds to it and resets it to 0.
unfoldable pub calculate_backoff_delay : ℕ → ℤ
unfolding int64
calculate_backoff_delay restart_count =
    let delay = int64 (10 * 2 ^ restart_count % 2 ^ 64 * 1000000000) in
    let max_delay = pos 160000000000 in if ltb_ℤ max_delay delay then max_delay else delay

-- The delay of one count is as it should be.
is_doubled : ℕ → Bool
is_doubled count =
    eqb_ℤ (calculate_backoff_delay count) (pos (min (10 * 2 ^ count) 160 * 1000000000))

-- So are those of `rounds` counts from `first` on.
are_doubled : ℕ → ℕ → Bool
are_doubled first zero = true
are_doubled first (suc rounds) = is_doubled first && are_doubled (suc first) rounds

are_doubled-at :
    (first rounds count : ℕ)
    → first ≤ count
    → count < first + rounds
    → are_doubled first rounds ≡ true
    → is_doubled count ≡ true
unfolding are_doubled
are_doubled-at first zero count from to all = absurd (omega arith)
are_doubled-at first (suc rounds) count from to all = elim (dec_lt first count) [
  | yes later ↦ are_doubled-at (suc first) rounds count later (omega arith) (ground arith)
  | no here ↦
      let same : first ≡ count = omega arith in subst (λ c. is_doubled c ≡ true) same (ground arith)
]

thirty_doubled : are_doubled 0 30 ≡ true
unfolding are_doubled is_doubled calculate_backoff_delay
thirty_doubled = refl

-- Below 30 restarts the backoff doubles from 10 seconds and stays at 160 seconds from the fifth delay on.
pub calculate_backoff_delay_lem :
    (n : ℕ) → n < 30 → calculate_backoff_delay n ≡ pos (min (10 * 2 ^ n) 160 * 1000000000)
unfolding is_doubled
calculate_backoff_delay_lem n h =
    eqb_ℤ→eq _ _ (are_doubled-at 0 30 n (omega arith) h thirty_doubled)

-- At 30 the product passes 2 ^ 63, and the delay is negative.
backoff_overflows : (d : ℕ) × (calculate_backoff_delay 30 ≡ negsuc d)
unfolding calculate_backoff_delay
backoff_overflows = (_, refl)
