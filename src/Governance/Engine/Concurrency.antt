-- ===== src/Governance/Engine/Concurrency.antt =====
-- The ceiling on concurrent invokes.
use agenttier.Prelude.{ℕ, suc, ◌<◌, ◌^◌, ◌≡◌, ◌↔◌, ◌⊎◌, arith}
use agenttier.Prelude.Int.{ℤ, pos, ◌≤ℤ◌}
use agenttier.Governance.Policy.{Policy}
use agenttier.Governance.Engine.{clamp_concurrency}

-- Under a ceiling that fits a 32-bit integer, a request is clamped to a value in force: it is the
-- ceiling where the request is unlimited (0) or higher, and the request itself otherwise, and to
-- clamp it once more changes nothing.
pub clamp_concurrency_ceiling :
    (p : Policy) (requested : ℤ) (c : ℕ)
    → p.max_concurrent_invokes_per_sandbox ≡ pos (suc c)
    → suc c < 2 ^ 31
    → let r = clamp_concurrency p requested in
      (r ≤ℤ pos (suc c))
      × (clamp_concurrency p r ≡ r)
      × ((r ≡ pos (suc c)) ↔ ((requested ≡ pos 0) ⊎ (pos (suc c) ≤ℤ requested)))
      × ((r ≡ requested) ⊎ (r ≡ pos (suc c)))
unfolding clamp_concurrency
clamp_concurrency_ceiling p requested c h fits = ground arith
