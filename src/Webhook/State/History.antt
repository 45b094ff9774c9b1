-- ===== src/Webhook/State/History.antt =====
-- The stored history and failure counter against the whole sequence of recorded attempts.
use mathlib.Core.List.{append-nil, append_assoc}
use agenttier.Prelude.{
  ℕ, zero, suc, ◌+◌, ◌-◌, ◌≤◌, ◌<◌, String, Bool, true, false, none, some, List, [], ◌∷◌, ◌++◌, ◌≡◌,
  refl, ap, sym, ◌∙◌, inl, inr, ◌↔◌, arith, eq_refl, str_eq, if◌then◌else◌, ltb, length,
  length-append, length-drop, drop, name_cases, Bool-cases, subst,
}
use agenttier.Webhook.Events.{CursorState}
use agenttier.Webhook.State.{
  DeliveryAttempt, SubscriptionState, PersistedState, max_history_per_subscription, or_fresh, trim,
  add_attempt, effective_threshold, Outcome, record_attempt,
}

-- The last `n` entries.
abbrev pub last_n : ℕ → List DeliveryAttempt → List DeliveryAttempt
last_n n xs = drop (length xs - n) xs

-- The failures since the last success, oldest entry first.
abbrev pub trailing_failures : ℕ → List DeliveryAttempt → ℕ
trailing_failures n [] = n
trailing_failures n (a ∷ rest) = trailing_failures (if a.success then 0 else n + 1) rest

-- One call of RecordAttempt: for which subscription, what, and whether load and save succeed.
pub record Recorded : Type 0 where
  pub outcome : Outcome
  pub id : String
  pub attempt : DeliveryAttempt

abbrev pub is_saved : Outcome → Bool
is_saved o = if o.loads then o.saves else false

-- All attempts of a subscription that were saved.
abbrev pub attempts_of : String → List Recorded → List DeliveryAttempt
attempts_of id [] = []
attempts_of id (r ∷ rs) =
    if str_eq id r.id
    then (if is_saved r.outcome then r.attempt ∷ attempts_of id rs else attempts_of id rs)
    else attempts_of id rs

-- The state after a sequence of calls.
unfoldable pub record_all : ℕ → PersistedState → List Recorded → PersistedState
record_all threshold state [] = state
record_all threshold state (r ∷ rs) =
    record_all threshold (record_attempt r.outcome state r.id r.attempt threshold).0 rs

drop-append :
    (n : ℕ) (xs ys : List DeliveryAttempt) → n ≤ length xs → drop n (xs ++ ys) ≡ drop n xs ++ ys
drop-append zero xs ys h = refl
drop-append (suc n) [] ys h = absurd (omega arith)
drop-append (suc n) (x ∷ xs) ys h = drop-append n xs ys (omega arith)

add_suc : (n m : ℕ) → suc (n + m) ≡ suc n + m
add_suc n m = omega arith

drop_empty : (n : ℕ) → drop {A = DeliveryAttempt} n [] ≡ []
drop_empty zero = refl
drop_empty (suc n) = refl

drop-drop : (m n : ℕ) (xs : List DeliveryAttempt) → drop m (drop n xs) ≡ drop (n + m) xs
drop-drop m zero xs = ap (λ k. drop k xs) (omega arith)
drop-drop zero (suc n) [] = sym (drop_empty (suc n + zero))
drop-drop (suc m) (suc n) [] = sym (drop_empty (suc n + suc m))
drop-drop m (suc n) (x ∷ xs) = drop-drop m n xs ∙ ap (λ k. drop k (x ∷ xs)) (add_suc n m)

module _ (xs : List DeliveryAttempt) (a : DeliveryAttempt) where
  short_trim :
      length xs < max_history_per_subscription
      → trim (last_n max_history_per_subscription xs ++ a ∷ [])
        ≡ last_n max_history_per_subscription (xs ++ a ∷ [])
  unfolding trim
  short_trim h =
      let all : length xs - max_history_per_subscription ≡ 0 = omega arith in
      let same : length (xs ++ a ∷ []) ≡ length xs + 1 = length-append xs (a ∷ []) in
      let fits : length (xs ++ a ∷ []) - max_history_per_subscription ≡ 0 = omega arith in
      rw (all, fits) (ground arith)

  long_trim :
      max_history_per_subscription ≤ length xs
      → trim (last_n max_history_per_subscription xs ++ a ∷ [])
        ≡ last_n max_history_per_subscription (xs ++ a ∷ [])
  unfolding trim
  long_trim h =
      let n = length xs - max_history_per_subscription in
      let same : length (xs ++ a ∷ []) ≡ length xs + 1 = length-append xs (a ∷ []) in
      let full : length (drop n xs ++ a ∷ []) ≡ 21 =
        omega (arith, length-append (drop n xs) (a ∷ []), length-drop n xs) in
      let past : length (xs ++ a ∷ []) - max_history_per_subscription ≡ n + 1 = omega arith in
      rw (full, past)
        (ap (drop 1) (sym (drop-append n xs (a ∷ []) (omega arith))) ∙ drop-drop 1 n (xs ++ a ∷ []))

  trim-append :
      trim (last_n max_history_per_subscription xs ++ a ∷ [])
      ≡ last_n max_history_per_subscription (xs ++ a ∷ [])
  trim-append = elim (Bool-cases (ltb (length xs) max_history_per_subscription)) [
    | inl short ↦ short_trim (ground arith)
    | inr long ↦ long_trim (ground arith)
  ]

trailing_failures-append :
    (n : ℕ) (xs : List DeliveryAttempt) (a : DeliveryAttempt)
    → trailing_failures n (xs ++ a ∷ []) ≡ (if a.success then 0 else trailing_failures n xs + 1)
trailing_failures-append n [] a = refl
trailing_failures-append n (x ∷ xs) a =
    trailing_failures-append (if x.success then 0 else n + 1) xs a

-- What the state keeps of all the attempts of a subscription.
abbrev pub summary : List DeliveryAttempt → SubscriptionState
summary attempts = record {
  consecutive_failures = trailing_failures 0 attempts;
  history = last_n max_history_per_subscription attempts;
}

add_attempt-summary :
    (attempts : List DeliveryAttempt) (a : DeliveryAttempt)
    → add_attempt a (summary attempts) ≡ summary (attempts ++ a ∷ [])
unfolding add_attempt
add_attempt-summary attempts a =
    ground (arith, trim-append attempts a, trailing_failures-append 0 attempts a)

record_attempt-other :
    (r : Recorded) (threshold : ℕ) (state : PersistedState) (id : String)
    → or_fresh ((record_attempt r.outcome state r.id r.attempt threshold).0.subscriptions id) ≡ (
        if str_eq id r.id
        then (if is_saved r.outcome
            then add_attempt r.attempt (or_fresh (state.subscriptions id))
            else or_fresh (state.subscriptions id))
        else or_fresh (state.subscriptions id))
unfolding record_attempt
record_attempt-other r threshold state id = elim (name_cases id r.id) [
  | inl e ↦ rw e (ground (arith, eq_refl r.id))
  | inr n ↦ ground arith
]

record_all-summary :
    (threshold : ℕ) (state : PersistedState) (id : String) (before : List DeliveryAttempt)
    (rs : List Recorded)
    → or_fresh (state.subscriptions id) ≡ summary before
    → or_fresh ((record_all threshold state rs).subscriptions id)
      ≡ summary (before ++ attempts_of id rs)
unfolding record_all
record_all-summary threshold state id before [] h = rw (append-nil before) h
record_all-summary threshold state id before (r ∷ rs) h =
    let next = (record_attempt r.outcome state r.id r.attempt threshold).0 in
    let now = record_attempt-other r threshold state id in
    elim (Bool-cases (str_eq id r.id)) [
      | inl mine ↦ elim (Bool-cases (is_saved r.outcome)) [
        | inl saved ↦
            rw (mine, saved)
              (subst (λ l. or_fresh ((record_all threshold next rs).subscriptions id) ≡ summary l)
                (append_assoc before (r.attempt ∷ []) (attempts_of id rs))
                (record_all-summary threshold next id (before ++ r.attempt ∷ []) rs
                  (ground (arith, now, h, add_attempt-summary before r.attempt))))
        | inr lost ↦
            rw (mine, lost) (record_all-summary threshold next id before rs (ground (arith, now)))
      ]
      | inr other ↦ rw other (record_all-summary threshold next id before rs (ground (arith, now)))
    ]

-- After any sequence of calls of RecordAttempt from the empty state, for any subscriptions and with
-- any of the calls failing, the state holds of each subscription the last 20 of its saved attempts,
-- in order, and the number of failures since its last success.
pub record_all_lem :
    (threshold : ℕ) (cursor : CursorState) (id : String) (rs : List Recorded)
    → or_fresh (
        (record_all threshold
            (record { cursor = cursor; subscriptions = λ k. none })
            rs).subscriptions
          id)
      ≡ summary (attempts_of id rs)
record_all_lem threshold cursor id rs = record_all-summary threshold _ id [] rs refl

-- A call that is saved reports that the threshold is crossed exactly when, with its own attempt, the
-- subscription has failed that often since its last success; a threshold of 0 means 15.
pub record_attempt-crossed :
    (threshold : ℕ) (state : PersistedState) (id : String) (before : List DeliveryAttempt)
    (a : DeliveryAttempt)
    → or_fresh (state.subscriptions id) ≡ summary before
    → let out = record_attempt (record { loads = true; saves = true }) state id a threshold in
      (out.1 ≡ some true) ↔ (effective_threshold threshold ≤ trailing_failures 0 (before ++ a ∷ []))
unfolding record_attempt
record_attempt-crossed threshold state id before a h =
    rw h (ground (arith, trailing_failures-append 0 before a))
