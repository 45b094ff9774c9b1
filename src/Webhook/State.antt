-- ===== src/Webhook/State.antt =====
-- pkg/controller/webhook_delivery/state.go: the delivery state, and what RecordAttempt makes of it. Here
-- a store is the state that a load gives, and a load or a save that fails is an argument; Store has
-- the loads and saves of the ConfigMap.
pub mod History
pub mod Store
pub mod Saves
pub mod Roundtrip
mod Tests
use agenttier.Prelude.{
  ℕ, suc, ◌+◌, ◌-◌, String, Bool, true, false, Option, none, some, List, [], ◌∷◌, ◌++◌,
  if◌then◌else◌, ltb, leb, str_eq, length, drop, ◌==◌,
}
use agenttier.Webhook.Events.{CursorState}

pub record DeliveryAttempt : Type 0 where
  pub event_type : String
  pub timestamp : ℕ
  pub status_code : ℕ
  pub attempt : ℕ
  pub success : Bool

pub record SubscriptionState : Type 0 where
  pub consecutive_failures : ℕ
  pub history : List DeliveryAttempt

-- The map `Subscriptions` as a function.
pub record PersistedState : Type 0 where
  pub cursor : CursorState
  pub subscriptions : String → Option SubscriptionState

abbrev pub max_history_per_subscription : ℕ
max_history_per_subscription = 20

abbrev pub default_auto_disable_threshold : ℕ
default_auto_disable_threshold = 15

abbrev pub fresh_subscription : SubscriptionState
fresh_subscription = record { consecutive_failures = 0; history = [] }

abbrev pub or_fresh : Option SubscriptionState → SubscriptionState
or_fresh none = fresh_subscription
or_fresh (some sub) = sub

-- Only the most recent entries are kept.
unfoldable pub trim : List DeliveryAttempt → List DeliveryAttempt
trim history =
    if ltb max_history_per_subscription (length history)
    then drop (length history - max_history_per_subscription) history
    else history

unfoldable pub add_attempt : DeliveryAttempt → SubscriptionState → SubscriptionState
add_attempt attempt sub = record {
  consecutive_failures = if attempt.success then 0 else sub.consecutive_failures + 1;
  history = trim (sub.history ++ attempt ∷ []);
}

abbrev pub update :
    (String → Option SubscriptionState)
    → String
    → SubscriptionState
    → String
    → Option SubscriptionState
update subs id sub k = if str_eq k id then some sub else subs k

abbrev pub effective_threshold : ℕ → ℕ
effective_threshold threshold = if threshold == 0 then default_auto_disable_threshold else threshold

-- Whether the load and the save of one call succeed.
pub record Outcome : Type 0 where
  pub loads : Bool
  pub saves : Bool

-- RecordAttempt: the store afterwards, and `none` for an error or whether the threshold is crossed. A
-- threshold that is not positive is 0 here.
unfoldable pub record_attempt :
    Outcome → PersistedState → String → DeliveryAttempt → ℕ → PersistedState × Option Bool
unfolding add_attempt
record_attempt outcome state id attempt threshold =
    let sub = add_attempt attempt (or_fresh (state.subscriptions id)) in
    let crossed = leb (effective_threshold threshold) sub.consecutive_failures in
    if outcome.loads
    then (if outcome.saves
        then (record state { subscriptions = update state.subscriptions id sub }, some crossed)
        else (state, none))
    else (state, none)

-- History of a subscription, once the state is loaded.
unfoldable pub history_of : PersistedState → String → List DeliveryAttempt
history_of state id = (or_fresh (state.subscriptions id)).history
