-- ===== src/Router/RateLimit/Cost.antt =====
-- pkg/router/ratelimit.go, costForRequest and the two middlewares: what a request costs, what is left
-- of its body, and what is answered.
use agenttier.Prelude.{
  ℕ, zero, suc, ◌*◌, ◌≤◌, String, Option, none, some, List, [], ◌∷◌, if◌then◌else◌, str_eq, length,
  ◌≡◌, ◌≢◌, refl, ap, ◌↔◌, ◌==◌, arith, inl, inr, name_cases,
}
use agenttier.Prelude.Int.{ℤ, pos, negsuc}
use agenttier.Webhook.Subscription.{lookup}
use agenttier.Router.RateLimit.{
  Limiters, RateLimiter, Clock, Gate, allowed, retry_after, gate_request_n, gate_request,
  is_exempt_from_rate_limit, retry_after_seconds,
}

-- 8 MiB
abbrev pub route_cost_max_peek_bytes : ℕ
route_cost_max_peek_bytes = 8 * 1024 * 1024

-- A body: none, its bytes, or one that cannot be read.
pub data Body : Type 0 where
  absent : Body
  bytes : List ℕ → Body
  unreadable : Body

-- `io.LimitReader`
unfoldable pub take {ℓ} : {A : Type ℓ} → ℕ → List A → List A
take zero xs = []
take (suc n) [] = []
take (suc n) (x ∷ xs) = x ∷ take n xs

-- A cost below one is one.
abbrev pub at_least_one : ℤ → ℕ
at_least_one (pos n) = if n == 0 then 1 else n
at_least_one (negsuc n) = 1

-- A registered function's cost, and the body that the handler gets.
abbrev pub peeked : (Body → ℤ) → Body → ℕ × Body
peeked cost absent = (at_least_one (cost absent), absent)
peeked cost (bytes all) =
    let read = take route_cost_max_peek_bytes all in (at_least_one (cost (bytes read)), bytes read)
peeked cost unreadable = (1, bytes [])

abbrev pub with_cost : Option (Option (Body → ℤ)) → Body → ℕ × Body
with_cost none body = (1, body)
with_cost (some none) body = (1, body)
with_cost (some (some cost)) body = peeked cost body

-- `template` is the route's, or empty where none matched; a registered function may be nil.
unfoldable pub cost_for_request : List (String × Option (Body → ℤ)) → String → Body → ℕ × Body
unfolding lookup
cost_for_request funcs template body =
    if str_eq template "" then (1, body) else with_cost (lookup template funcs) body

-- `registerRouteCost`
abbrev pub register_route_cost :
    String
    → Option (Body → ℤ)
    → List (String × Option (Body → ℤ))
    → List (String × Option (Body → ℤ))
register_route_cost template cost [] = (template, cost) ∷ []
register_route_cost template cost ((k, c) ∷ funcs) =
    let rest = register_route_cost template cost funcs in
    if str_eq k template then (k, cost) ∷ funcs else (k, c) ∷ rest

-- The next handler with the body that it gets, or a 429 with its Retry-After in seconds.
pub data Reply : Type 0 where
  served : Body → Reply
  too_many : ℕ → Reply

module _ (L : Limiters) where
  abbrev pub reply : Gate L × RateLimiter L → Body → Reply × Option (RateLimiter L)
  reply (allowed, rl) body = (served body, some rl)
  reply (retry_after delay, rl) body = (too_many (retry_after_seconds delay), some rl)

  unfoldable pub rate_limit_middleware :
      Option (RateLimiter L) → Clock L → String → String → Body → Reply × Option (RateLimiter L)
  rate_limit_middleware none at path ip body = (served body, none)
  rate_limit_middleware (some rl) at path ip body =
      if is_exempt_from_rate_limit path
      then (served body, some rl)
      else reply (gate_request L rl at ip "") body

  abbrev pub user_gate :
      RateLimiter L → Clock L → String → ℕ × Body → Reply × Option (RateLimiter L)
  user_gate rl at sub (cost, body) = reply (gate_request_n L rl at "" sub (pos cost)) body

  -- `sub` is the claims' subject, if there are claims.
  unfoldable pub rate_limit_authenticated_middleware :
      List (String × Option (Body → ℤ))
      → Option (RateLimiter L)
      → Clock L
      → String
      → String
      → Option String
      → Body
      → Reply × Option (RateLimiter L)
  rate_limit_authenticated_middleware funcs none at path template sub body = (served body, none)
  rate_limit_authenticated_middleware funcs (some rl) at path template none body =
      (served body, some rl)
  rate_limit_authenticated_middleware funcs (some rl) at path template (some sub) body =
      if is_exempt_from_rate_limit path
      then (served body, some rl)
      else (if str_eq sub ""
          then (served body, some rl)
          else user_gate rl at sub (cost_for_request funcs template body))

length-take : (n : ℕ) (xs : List ℕ) → length (take n xs) ≤ n
unfolding take
length-take zero xs = omega arith
length-take (suc n) [] = omega arith
length-take (suc n) (x ∷ xs) = omega (arith, length-take n xs)

take_self : (n : ℕ) (xs : List ℕ) → length xs ≤ n → take n xs ≡ xs
unfolding take
take_self zero [] h = refl
take_self zero (x ∷ xs) h = absurd (omega arith)
take_self (suc n) [] h = refl
take_self (suc n) (x ∷ xs) h = ap (λ l. x ∷ l) (take_self n xs (omega arith))

take_iff : (n : ℕ) (xs : List ℕ) → (take n xs ≡ xs) ↔ (length xs ≤ n)
take_iff n xs = (λ e. omega (arith, length-take n xs, ap (length {A = ℕ}) e), take_self n xs)

abbrev body_bytes : Body → List ℕ
body_bytes (bytes all) = all
body_bytes _ = []

-- On a route with a cost function the handler gets the bytes that the client sent exactly when they
-- are at most 8 MiB; a longer body is cut.
pub cost_for_request_body :
    (funcs : List (String × Option (Body → ℤ))) (template : String) (cost : Body → ℤ) (all : List ℕ)
    → template ≢ ""
    → lookup template funcs ≡ some (some cost)
    → ((cost_for_request funcs template (bytes all)).1 ≡ bytes all)
      ↔ (length all ≤ route_cost_max_peek_bytes)
unfolding cost_for_request
cost_for_request_body funcs template cost all matched registered =
    let (to, from) = take_iff route_cost_max_peek_bytes all in
    elim (name_cases template "") [
      | inl same ↦ absurd (matched same)
      | inr some_template ↦
          rw (some_template, registered) (λ e. to (ap body_bytes e), λ h. ap bytes (from h))
    ]
