-- ===== src/Router/RateLimit/Fairness.antt =====
-- A bulk request against as many single ones.
use agenttier.Prelude.{
  ℕ, zero, suc, ◌+◌, String, true, false, Option, none, some, List, if◌then◌else◌, str_eq, ◌≡◌,
  refl, sym, ap, ◌∙◌, ◌↔◌, arith, inl, inr, not, ◌&&◌, Bool-cases, subst,
}
use agenttier.Prelude.Int.{ℤ, pos}
use agenttier.Router.RateLimit.{
  Limiters, LimiterEntry, RateLimiter, Clock, Gate, allowed, retry_after, gate_key, gate_layer,
  gate_request_n, gate_request, normal_cost, charged, get_or_create, write_back,
}
use agenttier.Router.RateLimit.Maps.{get_or_create-write_back, write_back-write_back}
use agenttier.Router.RateLimit.Isolation.{gate_request_n_user}

-- What the rate package documents of AllowN at one instant: the tokens of a sum of events are those
-- of the events.
pub record IsAdditive (L : Limiters) : Type 0 where
  pub fits :
      (l l' l'' : L.Limiter) (now m n : ℕ)
      → L.allow_n l now m ≡ (true, l')
      → L.allow_n l' now n ≡ (true, l'')
      → L.allow_n l now (m + n) ≡ (true, l'')
  pub splits :
      (l l'' : L.Limiter) (now m n : ℕ)
      → L.allow_n l now (m + n) ≡ (true, l'')
      → (l' : L.Limiter) × (L.allow_n l now m ≡ (true, l')) × (L.allow_n l' now n ≡ (true, l''))

-- So many single requests of one user, all let through.
abbrev pub all_allowed :
    (L : Limiters) → ℕ → RateLimiter L → Clock L → String → Option (RateLimiter L)
all_allowed L zero rl at user_sub = some rl
all_allowed L (suc n) rl at user_sub =
    let (gate, rl') = gate_request L rl at "" user_sub in
    elim gate [ allowed ↦ all_allowed L n rl' at user_sub | retry_after delay ↦ none ]

module _ (L : Limiters) where
  open L use {Rate, Limiter, is_positive, allow_n}

  -- One event after the other.
  singles : ℕ → Limiter → ℕ → Option Limiter
  singles zero l now = some l
  singles (suc n) l now =
      let (ok, l') = allow_n l now 1 in let rest = singles n l' now in if ok then rest else none

  singles_cases :
      (n : ℕ) (l l'' : Limiter) (now : ℕ)
      → (singles (suc n) l now ≡ some l'')
        ↔ ((l' : Limiter) × (allow_n l now 1 ≡ (true, l')) × (singles n l' now ≡ some l''))
  unfolding singles
  singles_cases n l l'' now =
      (λ h. ((allow_n l now 1).1, ground arith, ground arith), λ (l', one, rest). ground arith)

  allow_n_iff :
      (add : IsAdditive L) (n : ℕ) (l l'' : Limiter) (now : ℕ)
      → (allow_n l now (suc n) ≡ (true, l'')) ↔ (singles (suc n) l now ≡ some l'')
  unfolding singles
  allow_n_iff add zero l l'' now = (λ h. ground arith, λ h. ground arith)
  allow_n_iff add (suc n) l l'' now =
      let (to, from) = singles_cases (suc n) l l'' now in
      let sum : suc (suc n) ≡ 1 + suc n = omega arith in
      (
        λ h.
            let (l', one, rest) =
              add.splits l l'' now 1 (suc n) (subst (λ k. allow_n l now k ≡ (true, l'')) sum h) in
            from (l', one, (allow_n_iff add n l' l'' now).0 rest),
        λ h.
            let (l', one, rest) = to h in
            rw sum (add.fits l l' l'' now 1 (suc n) one ((allow_n_iff add n l' l'' now).1 rest)),
      )

  module _ (rate : Rate) (burst : ℤ) (seen now : ℕ) (user_sub : String)
      (m : List (String × LimiterEntry L)) where
    -- The map with the user's limiter put into it.
    abbrev holding : Limiter → List (String × LimiterEntry L)
    holding l = write_back L user_sub l (get_or_create L m user_sub rate burst seen).1

    gate_key_again :
        (cost : ℕ) (l : Limiter)
        → gate_key L rate burst seen now cost user_sub (holding l)
          ≡ (let (gate, l') = charged L (allow_n l now cost) now cost in (gate, holding l'))
    unfolding gate_key
    gate_key_again cost l =
        rw
          (
            get_or_create-write_back L rate burst seen user_sub l m,
            write_back-write_back L rate burst seen user_sub l _ _,
          )
          refl

  normal_cost-suc : (n : ℕ) → normal_cost L (pos (suc n)) ≡ suc n
  normal_cost-suc n = ground arith

  module _ (rl : RateLimiter L) (at : Clock L) (user_sub : String) where
    -- The state with the user's limiter put into it, and the limiter at the start.
    abbrev with_limiter : Limiter → RateLimiter L
    with_limiter l = record rl {
      by_user =
          holding rl.cfg.per_user_rate rl.cfg.per_user_burst at.user_seen at.user_now user_sub
            rl.by_user l;
    }

    abbrev first_limiter : Limiter
    first_limiter =
        (get_or_create L rl.by_user user_sub rl.cfg.per_user_rate rl.cfg.per_user_burst
          at.user_seen).0

    abbrev charge : ℕ → Limiter → Gate L × RateLimiter L
    charge cost l =
        let (gate, l') = charged L (allow_n l at.user_now cost) at.user_now cost in
        (gate, with_limiter l')

    -- The rest of a run of single requests, after one of them.
    after_gate : ℕ → Gate L × RateLimiter L → Option (RateLimiter L)
    after_gate n (allowed, rl') = all_allowed L n rl' at user_sub
    after_gate n (retry_after delay, rl') = none

    all_allowed-suc :
        (n : ℕ) (r : RateLimiter L)
        → all_allowed L (suc n) r at user_sub ≡ after_gate n (gate_request L r at "" user_sub)
    unfolding after_gate
    all_allowed-suc n r = ground arith

    module _ (limited : is_positive rl.cfg.per_user_rate ≡ true)
        (named : str_eq user_sub "" ≡ false) where
      gate_first :
          (cost : ℤ)
          → gate_request_n L rl at "" user_sub cost ≡ charge (normal_cost L cost) first_limiter
      unfolding gate_layer gate_key
      gate_first cost = gate_request_n_user L rl at user_sub cost ∙ rw (limited, named) refl

      gate_again :
          (cost : ℤ) (l : Limiter)
          → gate_request_n L (with_limiter l) at "" user_sub cost ≡ charge (normal_cost L cost) l
      unfolding gate_layer
      gate_again cost l =
          gate_request_n_user L (with_limiter l) at user_sub cost
          ∙ rw (limited, named)
              (ap
                (λ (g : Gate L × List (String × LimiterEntry L)).
                  (g.0, record rl { by_user = g.1 }))
                (gate_key_again rl.cfg.per_user_rate rl.cfg.per_user_burst at.user_seen at.user_now
                  user_sub rl.by_user (normal_cost L cost) l))

      put : Option Limiter → Option (RateLimiter L)
      put none = none
      put (some l) = some (with_limiter l)

      after_charge :
          (n : ℕ) (l : Limiter)
          → ((l' : Limiter)
              → all_allowed L n (with_limiter l') at user_sub ≡ put (singles n l' at.user_now))
          → after_gate n (charge 1 l) ≡ put (singles (suc n) l at.user_now)
      unfolding after_gate singles put
      after_charge n l ih = ground (arith, ih (allow_n l at.user_now 1).1)

      all_allowed-with_limiter :
          (n : ℕ) (l : Limiter)
          → all_allowed L n (with_limiter l) at user_sub ≡ put (singles n l at.user_now)
      unfolding singles put gate_request
      all_allowed-with_limiter zero l = refl
      all_allowed-with_limiter (suc n) l =
          all_allowed-suc n (with_limiter l)
          ∙ ap (after_gate n) (gate_again (pos 1) l)
          ∙ after_charge n l (all_allowed-with_limiter n)

      all_allowed-first :
          (n : ℕ)
          → all_allowed L (suc n) rl at user_sub ≡ put (singles (suc n) first_limiter at.user_now)
      unfolding gate_request
      all_allowed-first n =
          all_allowed-suc n rl
          ∙ ap (after_gate n) (gate_first (pos 1))
          ∙ after_charge n first_limiter (all_allowed-with_limiter n)

      charge_allowed :
          (cost : ℕ) (l : Limiter) (r : RateLimiter L)
          → (charge cost l ≡ (allowed, r))
            ↔ ((l' : Limiter) × (allow_n l at.user_now cost ≡ (true, l')) × (with_limiter l' ≡ r))
      charge_allowed cost l r = (
        λ h. ((allow_n l at.user_now cost).1, ground arith, ground arith),
        λ (l', ok, same). ground arith,
      )

      put-eq-some :
          (o : Option Limiter) (r : RateLimiter L)
          → (put o ≡ some r) ↔ ((l' : Limiter) × (o ≡ some l') × (with_limiter l' ≡ r))
      unfolding put
      put-eq-some none r = (λ h. cc, λ h. let e = h.1 in cc)
      put-eq-some (some l) r = (λ h. (l, refl, cc), λ (l', e, same). cc)

      limited_iff :
          (add : IsAdditive L) (n : ℕ) (r : RateLimiter L)
          → (gate_request_n L rl at "" user_sub (pos (suc n)) ≡ (allowed, r))
            ↔ (all_allowed L (suc n) rl at user_sub ≡ some r)
      limited_iff add n r =
          let start =
            gate_first (pos (suc n)) ∙ ap (λ c. charge c first_limiter) (normal_cost-suc n) in
          (
            λ h.
                let (l', ok, same) = (charge_allowed (suc n) first_limiter r).0 (sym start ∙ h) in
                all_allowed-first n
                ∙ (put-eq-some _ r).1
                    (l', (allow_n_iff add n first_limiter l' at.user_now).0 ok, same),
            λ h.
                let (l', ok, same) = (put-eq-some _ r).0 (sym (all_allowed-first n) ∙ h) in
                start
                ∙ (charge_allowed (suc n) first_limiter r).1
                    (l', (allow_n_iff add n first_limiter l' at.user_now).1 ok, same),
          )

    -- A user that is not limited, or has no name, passes and changes nothing.
    module _
        (unlimited : (is_positive rl.cfg.per_user_rate && not (str_eq user_sub "")) ≡ false) where
      gate_unlimited : (cost : ℤ) → gate_request_n L rl at "" user_sub cost ≡ (allowed, rl)
      unfolding gate_layer
      gate_unlimited cost = gate_request_n_user L rl at user_sub cost ∙ rw unlimited refl

      all_allowed-unlimited : (n : ℕ) → all_allowed L n rl at user_sub ≡ some rl
      unfolding gate_request after_gate
      all_allowed-unlimited zero = refl
      all_allowed-unlimited (suc n) =
          all_allowed-suc n rl
          ∙ ap (after_gate n) (gate_unlimited (pos 1))
          ∙ all_allowed-unlimited n

  -- At one instant, a user's bulk request of n + 1 items is let through exactly when n + 1 single
  -- requests in a row are, and it leaves the rate limiter as they do. This rests on IsAdditive.
  pub gate_request_n-all_allowed :
      (rl r : RateLimiter L) (at : Clock L) (user_sub : String) (n : ℕ)
      → IsAdditive L
      → (gate_request_n L rl at "" user_sub (pos (suc n)) ≡ (allowed, r))
        ↔ (all_allowed L (suc n) rl at user_sub ≡ some r)
  gate_request_n-all_allowed rl r at user_sub n add =
      elim (Bool-cases (is_positive rl.cfg.per_user_rate && not (str_eq user_sub ""))) [
        | inl asked ↦ limited_iff rl at user_sub (ground arith) (ground arith) add n r
        | inr open_to ↦
            rw
              (
                all_allowed-unlimited rl at user_sub open_to (suc n),
                gate_unlimited rl at user_sub open_to (pos (suc n)),
              )
              (λ h. cc, λ h. cc)
      ]
