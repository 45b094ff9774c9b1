-- ===== src/Webhook/Deliverer/Retries.antt =====
-- The retry loop of one delivery.
use agenttier.Prelude.{
  ℕ, zero, suc, ◌+◌, ◌-◌, ◌*◌, ◌^◌, ◌≤◌, ◌<◌, Bool, true, false, ◌≡◌, refl, sym, ◌⊎◌, inl, inr,
  arith, Bool-cases, subst, dec_lt,
}
use native.Mathlib.Nat.{pow-suc}
use agenttier.Webhook.Deliverer.{Tried, is_delivered, status_of, Delivery, attempt_from, deliver}

-- The loop from attempt `k` with backoff `b`: it makes at most `left` more attempts, all before the last
-- one failed, it stops at a success or at the last attempt, and it slept b * (2 ^ rounds - 1) more.
abbrev Ends : (ℕ → Tried) → ℕ → ℕ → ℕ → ℕ → Delivery → Type 0
Ends tries k b slept left d =
    (k ≤ d.made)
    × (d.made ≤ k + left)
    × ((i : ℕ) → k ≤ i → i < d.made → is_delivered (tries i) ≡ false)
    × (d.success ≡ is_delivered (tries d.made))
    × (d.last_status ≡ status_of (tries d.made))
    × ((d.success ≡ true) ⊎ (d.made ≡ k + left))
    × (d.slept + b ≡ slept + b * 2 ^ (d.made - k))

pow_step : (b n k : ℕ) → suc k ≤ n → b * 2 * 2 ^ (n - suc k) ≡ b * 2 ^ (n - k)
pow_step b n k h = let e : n - k ≡ suc (n - suc k) = omega arith in rw (e, pow-suc) (omega arith)

one_round : (b slept k : ℕ) → slept + b ≡ slept + b * 2 ^ (k - k)
one_round b slept k = let e : k - k ≡ 0 = omega arith in rw e (omega arith)

attempt_from-Ends :
    (tries : ℕ → Tried) (k b slept left : ℕ)
    → Ends tries k b slept left (attempt_from tries k b slept left)
unfolding attempt_from
attempt_from-Ends tries k b slept zero = (
  omega arith,
  omega arith,
  λ i low high. absurd (omega arith),
  refl,
  refl,
  inr (omega arith),
  one_round b slept k,
)
attempt_from-Ends tries k b slept (suc left) = elim (Bool-cases (is_delivered (tries k))) [
  | inl hit ↦ rw hit (
    omega arith,
    omega arith,
    λ i low high. absurd (omega arith),
    sym hit,
    refl,
    inl refl,
    one_round b slept k,
  )
  | inr miss ↦
      let d = attempt_from tries (suc k) (b * 2) (slept + b) left in
      let (low, high, before, ok, status, end, sleep) =
        attempt_from-Ends tries (suc k) (b * 2) (slept + b) left in
      rw miss (
        omega arith,
        omega arith,
        λ i from to. earlier i from to miss before,
        ok,
        status,
        last_round end,
        omega (arith, sleep, pow_step b d.made k low),
      )
]
  where
    last_round :
        {success : Bool} {made : ℕ}
        → (success ≡ true) ⊎ (made ≡ suc k + left)
        → (success ≡ true) ⊎ (made ≡ k + suc left)
    last_round (inl h) = inl h
    last_round (inr e) = inr (omega arith)

    earlier :
        {made : ℕ} (i : ℕ)
        → k ≤ i
        → i < made
        → is_delivered (tries k) ≡ false
        → ((j : ℕ) → suc k ≤ j → j < made → is_delivered (tries j) ≡ false)
        → is_delivered (tries i) ≡ false
    earlier i from to miss before = elim (dec_lt k i) [
      | yes later ↦ before i later to
      | no here ↦
          let same : k ≡ i = omega arith in subst (λ j. is_delivered (tries j) ≡ false) same miss
    ]

-- A delivery with at least one attempt allowed makes between one and that many; all but the last one
-- failed; the last one succeeded, or all were made; the status and the success that are recorded are
-- those of the last attempt; and with the backoff doubling from its initial value after each failure,
-- the time slept is (2 ^ (made - 1) - 1) times that value.
pub deliver_lem :
    (tries : ℕ → Tried) (initial_backoff max : ℕ)
    → 0 < max
    → let d = deliver tries initial_backoff max in
      (1 ≤ d.made)
      × (d.made ≤ max)
      × ((i : ℕ) → 1 ≤ i → i < d.made → is_delivered (tries i) ≡ false)
      × (d.success ≡ is_delivered (tries d.made))
      × (d.last_status ≡ status_of (tries d.made))
      × ((d.success ≡ true) ⊎ (d.made ≡ max))
      × (d.slept + initial_backoff ≡ initial_backoff * 2 ^ (d.made - 1))
unfolding deliver
deliver_lem tries b max h =
    let (low, high, before, ok, status, end, sleep) = attempt_from-Ends tries 1 b 0 (max - 1) in
    (low, omega arith, before, ok, status, all_made end, omega arith)
  where
    all_made :
        {success : Bool} {made : ℕ}
        → (success ≡ true) ⊎ (made ≡ 1 + (max - 1))
        → (success ≡ true) ⊎ (made ≡ max)
    all_made (inl e) = inl e
    all_made (inr e) = inr (omega arith)
