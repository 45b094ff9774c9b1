-- ===== src/Webhook/Deliverer.antt =====
-- pkg/controller/webhook_delivery/deliverer.go: the retries of one delivery, the subscriptions that an
-- event goes to, and one pass of the loop. Payload, signature and HTTP are left out: what becomes of
-- an attempt is an argument.
pub mod Retries
pub mod Passes
pub mod Runs
use agenttier.Prelude.{
  ℕ, zero, suc, ◌+◌, ◌-◌, ◌*◌, String, Bool, true, false, not, ◌&&◌, Option, none, some, List, [],
  ◌∷◌, ◌++◌, if◌then◌else◌, str_eq, ltb, leb, keep, is_empty, map,
}
use agenttier.Webhook.Subscription.{
  Subscription, SandboxAccess, matches, webhook_type_for_reason, can_access_sandbox, lookup,
}
use agenttier.Webhook.Events.{Event, CursorState, NewEvents, list_new_events}

-- What becomes of the n-th attempt: the URL check refuses, or the request ends with a status code (0
-- for none) and is delivered or not.
pub data Tried : Type 0 where
  refused_url : Tried
  sent : ℕ → Bool → Tried

abbrev pub is_delivered : Tried → Bool
is_delivered refused_url = false
is_delivered (sent status delivered) = delivered

abbrev pub status_of : Tried → ℕ
status_of refused_url = 0
status_of (sent status delivered) = status

-- The outcome of the retry loop: the number of attempts made, the last status, whether the last one
-- succeeded, and how long was slept in between.
pub record Delivery : Type 0 where
  pub made : ℕ
  pub last_status : ℕ
  pub success : Bool
  pub slept : ℕ

-- `for attempt := 1; attempt <= d.maxAttempts; attempt++`, with the rounds left after this one; `tries`
-- answers for each attempt by its number.
unfoldable pub attempt_from : (ℕ → Tried) → ℕ → ℕ → ℕ → ℕ → Delivery
attempt_from tries attempt backoff slept zero =
    let t = tries attempt in
    record { made = attempt; last_status = status_of t; success = is_delivered t; slept = slept }
attempt_from tries attempt backoff slept (suc left) =
    let rest = attempt_from tries (suc attempt) (backoff * 2) (slept + backoff) left in
    let t = tries attempt in
    if is_delivered t
    then record { made = attempt; last_status = status_of t; success = true; slept = slept }
    else rest

-- defaultMaxAttempts
abbrev pub default_max_attempts : ℕ
default_max_attempts = 5

-- The loop with a positive number of attempts.
unfoldable pub deliver : (ℕ → Tried) → ℕ → ℕ → Delivery
unfolding attempt_from
deliver tries initial_backoff max_attempts =
    attempt_from tries 1 initial_backoff 0 (max_attempts - 1)

-- dispatchEvent's conditions on one subscription; `access` answers for the sandbox, `none` on failure.
unfoldable pub receives :
    Option SandboxAccess → List (String × String) → Event → String → Subscription → Bool
receives access secrets evt webhook_type sub =
    matches sub webhook_type evt.namespace evt.name
    && (can_access_sandbox sub access
        && (elim (lookup sub.id secrets) [ none ↦ false | some secret ↦ not (str_eq secret "") ]))

-- The subscriptions to which an event is delivered. The map of subscriptions is keyed by their ids.
unfoldable pub recipients :
    (Event → Option SandboxAccess)
    → List Subscription
    → List (String × String)
    → Event
    → List String
unfolding receives
recipients access subs secrets evt = elim (webhook_type_for_reason evt.reason) [
  | none ↦ []
  | some webhook_type ↦
      map (λ (s : Subscription). s.id)
        (keep (λ s. receives (access evt) secrets evt webhook_type s) subs)
]

-- What the API server answers in one pass: the cursor it loads, the events it lists, the subscriptions
-- with their secrets, `none` where the call fails, and whether the cursor is saved.
pub record PassEnv : Type 0 where
  pub now : ℕ
  pub loaded : Option CursorState
  pub listed : Option (List Event)
  pub subscriptions : Option (List Subscription × List (String × String))
  pub access : Event → Option SandboxAccess
  pub saves : Bool

-- RunOnce: the events that were dispatched, each with its recipients, and the cursor that was saved.
pub record Pass : Type 0 where
  pub dispatched : List (Event × List String)
  pub saved : Option CursorState

abbrev pub idle_pass : Pass
idle_pass = record { dispatched = []; saved = none }

abbrev pub save : Bool → CursorState → Option CursorState
save true next = some next
save false next = none

abbrev pub dispatch_all :
    PassEnv → List Subscription → List (String × String) → List Event → List (Event × List String)
dispatch_all env subs secrets [] = []
dispatch_all env subs secrets (evt ∷ events) =
    (evt, recipients env.access subs secrets evt) ∷ dispatch_all env subs secrets events

-- The rest of the pass: the first pass only saves its cursor; without new events nothing happens; and
-- without subscriptions to read the cursor stays, for the next pass to try again.
abbrev pub finish_pass :
    Bool → Bool → Option (List Subscription × List (String × String)) → PassEnv → NewEvents → Pass
finish_pass true no_events held env new = record {
  dispatched = [];
  saved = save env.saves new.next;
}
finish_pass false true held env new = idle_pass
finish_pass false false none env new = idle_pass
finish_pass false false (some (subs, secrets)) env new = record {
  dispatched = dispatch_all env subs secrets new.events;
  saved = save env.saves new.next;
}

-- The pass, from what was read: without the cursor or the events nothing happens.
abbrev pub pass_on :
    (List Event → List Event) → PassEnv → Option CursorState → Option (List Event) → Pass
pass_on sort_slice env none listed = idle_pass
pass_on sort_slice env (some state) none = idle_pass
pass_on sort_slice env (some state) (some items) =
    let new = list_new_events sort_slice env.now state items in
    finish_pass new.bootstrap (is_empty new.events) env.subscriptions env new

unfoldable pub run_once : (List Event → List Event) → PassEnv → Pass
run_once sort_slice env = pass_on sort_slice env env.loaded env.listed
