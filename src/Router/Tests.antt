-- ===== src/Router/Tests.antt =====
-- The theorems on the router at concrete inputs.
use agenttier.Prelude.{
  ℕ, ◌+◌, String, Bool, true, false, some, [], ◌∷◌, ◌≡◌, ◌≢◌, refl, ◌↔◌, arith, In, ltb, leb,
  if◌then◌else◌, eq_iff,
}
use agenttier.Prelude.Int.{pos}
use agenttier.Webhook.Subscription.{lookup}
use agenttier.Router.ScopedKeys.{
  Claims, Route, next, scoped_key_route_actions, route_key, require_sandbox_scope,
}
use agenttier.Router.ScopedKeys.Scope.{require_sandbox_scope_iff}
use agenttier.Router.RateLimit.{
  Limiters, RateLimitConfig, RateLimiter, Clock, allowed, new_rate_limiter, gate_request_n,
}
use agenttier.Router.RateLimit.Fairness.{IsAdditive, all_allowed, gate_request_n-all_allowed}
use agenttier.Router.RateLimit.Bursts.{HasBursts, here, Run_over_burst}
use agenttier.Router.Terminal.{
  Session, new_manager, create_session, get_session, get_sandbox_sessions,
}
use agenttier.Router.Terminal.Runs.{Run as SessionRun, started, created, get_sandbox_sessions_iff}

abbrev scoped : Claims
scoped = record { sandbox_id = "sb-1"; action_groups = "run-command" ∷ [] }

abbrev exec_route : Route
exec_route = record { method = "POST"; template = "/api/v1/sandboxes/{id}/exec"; id = "sb-1" }

require_sandbox_scope_iff_example : (require_sandbox_scope (some scoped) exec_route ≡ next) ↔ (
    (exec_route.template ≢ "")
    × ((action : String) × (lookup (route_key exec_route) scoped_key_route_actions ≡ some action)
        × (exec_route.id ≡ scoped.sandbox_id)
        × In action scoped.action_groups))
require_sandbox_scope_iff_example =
    require_sandbox_scope_iff scoped exec_route (λ e. absurd (ground (arith, eq_iff "sb-1" "")))

-- A bucket that is not filled up again.
record Bucket : Type 0 where
  burst : ℕ
  spent : ℕ

abbrev spend : Bucket → ℕ → ℕ → Bool × Bucket
spend l now n =
    if leb (l.spent + n) l.burst then (true, record l { spent = l.spent + n }) else (false, l)

abbrev buckets : Limiters
buckets = record {
  Rate = ℕ;
  is_positive = λ r. ltb 0 r;
  whole = λ r. pos r;
  Limiter = Bucket;
  new_limiter = λ r b. record { burst = b; spent = 0 };
  allow_n = spend;
  reserve_and_cancel = λ l now n. (1000000000, l);
}

spend_splits :
    (l l'' : Bucket) (now m n : ℕ)
    → spend l now (m + n) ≡ (true, l'')
    → (l' : Bucket) × (spend l now m ≡ (true, l')) × (spend l' now n ≡ (true, l''))
spend_splits l l'' now m n h = (record l { spent = l.spent + m }, ground arith, ground arith)

buckets-IsAdditive : IsAdditive buckets
buckets-IsAdditive = record { fits = λ l l' l'' now m n h k. ground arith; splits = spend_splits }

buckets-HasBursts : HasBursts buckets
buckets-HasBursts = record {
  burst = λ (l : Bucket). l.burst;
  burst-new_limiter = λ r b. refl;
  burst-allow_n = λ l now n. ground arith;
  burst-reserve_and_cancel = λ l now n. refl;
  refused = λ l now n over. ground arith;
}

abbrev limits : RateLimitConfig buckets
limits = record {
  per_ip_rate = 1;
  per_ip_burst = pos 30;
  per_user_rate = 10;
  per_user_burst = pos 100;
  cleanup_interval = 0;
  limiter_ttl = 0;
  trust_forwarded_headers = false;
}

abbrev limiter : RateLimiter buckets
limiter = new_rate_limiter buckets limits

abbrev noon : Clock buckets
noon = record { ip_seen = 1000; ip_now = 1001; user_seen = 1002; user_now = 1003 }

gate_request_n-all_allowed_example :
    (gate_request_n buckets limiter noon "" "ann" (pos 3) ≡ (allowed, limiter))
    ↔ (all_allowed buckets 3 limiter noon "ann" ≡ some limiter)
gate_request_n-all_allowed_example =
    gate_request_n-all_allowed buckets limiter limiter noon "ann" 2 buckets-IsAdditive

Run_over_burst_example :
    (gate_request_n buckets limiter noon "10.0.0.1" "ann" (pos 150)).0 ≢ allowed
Run_over_burst_example =
    Run_over_burst buckets limits noon "10.0.0.1" "ann" 150 buckets-HasBursts here refl
      (λ e. absurd (ground (arith, eq_iff "ann" ""))) (omega arith)

abbrev shell : Session
shell = record { id = "a1"; sandbox_id = "sb-1"; user_id = "ann" }

shell_run : SessionRun (create_session shell new_manager)
unfolding new_manager
shell_run = created shell (λ t h. absurd h) started

get_sandbox_sessions_iff_example :
    In shell (get_sandbox_sessions "sb-1" (create_session shell new_manager)) ↔ (
      (get_session "a1" (create_session shell new_manager) ≡ some shell)
      × (shell.sandbox_id ≡ "sb-1"))
get_sandbox_sessions_iff_example = get_sandbox_sessions_iff "sb-1" shell shell_run
