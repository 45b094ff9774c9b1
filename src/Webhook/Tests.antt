-- ===== src/Webhook/Tests.antt =====
-- The theorems on webhook delivery at concrete inputs.
use agenttier.Prelude.{
  ℕ, ◌+◌, ◌*◌, ◌^◌, ◌-◌, ◌≤◌, ◌<◌, true, false, Option, none, some, List, [], ◌∷◌, ◌≡◌, refl, ◌↔◌,
  ◌⊎◌, inl, inr, arith, Bool-cases, leb, if◌then◌else◌, ◌==◌, All, In,
}
use agenttier.Webhook.Subscription.{
  Subscription, SandboxAccess, matches, lookup, webhook_type_for_reason, user_can_access_sandbox,
  can_access_sandbox,
}
use agenttier.Webhook.Events.{Event, CursorState, max_seen, list_new_events}
use agenttier.Webhook.Cursor.{SortsByTime, InOrder, list_new_events_once}
use agenttier.Webhook.State.{DeliveryAttempt, or_fresh}
use agenttier.Webhook.State.History.{Recorded, summary, attempts_of, record_all, record_all_lem}
use agenttier.Webhook.Deliverer.{
  Tried, sent, is_delivered, status_of, deliver, PassEnv, receives, recipients, run_once,
}
use agenttier.Webhook.Deliverer.Retries.{deliver_lem}
use agenttier.Webhook.Deliverer.Runs.{Reads, Dispatches, run_once-Entitled}

-- A sort by insertion, for `sort.Slice`.
abbrev insert : Event → List Event → List Event
insert e [] = e ∷ []
insert e (f ∷ events) =
    if leb e.last_timestamp f.last_timestamp then e ∷ f ∷ events else f ∷ insert e events

abbrev insertion_sort : List Event → List Event
insertion_sort [] = []
insertion_sort (e ∷ events) = insert e (insertion_sort events)

insert-In : (e f : Event) (events : List Event) → In e (insert f events) ↔ In e (f ∷ events)
insert-In e f [] = (λ m. m, λ m. m)
insert-In e f (g ∷ events) = elim (Bool-cases (leb f.last_timestamp g.last_timestamp)) [
  | inl first ↦ rw first (λ m. m, λ m. m)
  | inr later ↦
      let (to, from) = insert-In e f events in
      rw later (
        λ m. elim m [ inl same ↦ inr (inl same) | inr m' ↦ swap (to m') ],
        λ m. elim m [
          | inl same ↦ inr (from (inl same))
          | inr m' ↦ elim m' [ inl same ↦ inl same | inr m'' ↦ inr (from (inr m'')) ]
        ],
      )
]
  where
    swap : In e (f ∷ events) → In e (f ∷ g ∷ events)
    swap (inl same) = inl same
    swap (inr m) = inr (inr m)

insertion_sort-In : (e : Event) (events : List Event) → In e (insertion_sort events) ↔ In e events
insertion_sort-In e [] = (λ m. m, λ m. m)
insertion_sort-In e (f ∷ events) =
    let (to, from) = insert-In e f (insertion_sort events) in
    let (rest, back) = insertion_sort-In e events in
    (
      λ m. elim (to m) [ inl same ↦ inl same | inr m' ↦ inr (rest m') ],
      λ m. from (elim m [ inl same ↦ inl same | inr m' ↦ inr (back m') ]),
    )

abbrev AllAfter : ℕ → List Event → Type 0
AllAfter t events = All (λ (f : Event). t ≤ f.last_timestamp) events

weaken : (s t : ℕ) (events : List Event) → s ≤ t → AllAfter t events → AllAfter s events
weaken s t [] h a = a
weaken s t (e ∷ events) h a = (omega arith, weaken s t events h a.1)

insert-All :
    (t : ℕ) (e : Event) (events : List Event)
    → t ≤ e.last_timestamp
    → AllAfter t events
    → AllAfter t (insert e events)
insert-All t e [] h a = (h, a)
insert-All t e (f ∷ events) h a = elim (Bool-cases (leb e.last_timestamp f.last_timestamp)) [
  | inl first ↦ rw first (h, a)
  | inr later ↦ rw later (a.0, insert-All t e events h a.1)
]

insert-InOrder : (e : Event) (events : List Event) → InOrder events → InOrder (insert e events)
insert-InOrder e [] o = (tt, tt)
insert-InOrder e (f ∷ events) o = elim (Bool-cases (leb e.last_timestamp f.last_timestamp)) [
  | inl first ↦
      let h : e.last_timestamp ≤ f.last_timestamp = ground arith in
      rw first ((h, weaken e.last_timestamp f.last_timestamp events h o.0), o)
  | inr later ↦
      rw later
        (insert-All f.last_timestamp e events (ground arith) o.0, insert-InOrder e events o.1)
]

insertion_sort-InOrder : (events : List Event) → InOrder (insertion_sort events)
insertion_sort-InOrder [] = tt
insertion_sort-InOrder (e ∷ events) =
    insert-InOrder e (insertion_sort events) (insertion_sort-InOrder events)

sorts : SortsByTime insertion_sort
sorts = record { same = insertion_sort-In; in_order = insertion_sort-InOrder }

abbrev at_five : Event
at_five = record {
  uid = "e1";
  kind = "Sandbox";
  last_timestamp = 5000000000;
  reason = "Running";
  name = "sb";
  namespace = "default";
}

abbrev since_three : CursorState
since_three = record { cursor = some 3000000000; seen_uids = "e0" ∷ [] }

list_new_events_once_example :
    ¬ In at_five
      (list_new_events insertion_sort 9000000000
        (list_new_events insertion_sort 7000000000 since_three (at_five ∷ [])).next
        (at_five ∷ [])).events
list_new_events_once_example =
    list_new_events_once insertion_sort 7000000000 9000000000 since_three (at_five ∷ [])
      (at_five ∷ []) at_five sorts (inl refl) refl

-- A delivery whose third attempt gets through.
abbrev third_time : ℕ → Tried
third_time n = if n == 3 then sent 200 true else sent 503 false

deliver_lem_example :
    let d = deliver third_time 1000000000 5 in
    (1 ≤ d.made)
    × (d.made ≤ 5)
    × ((i : ℕ) → 1 ≤ i → i < d.made → is_delivered (third_time i) ≡ false)
    × (d.success ≡ is_delivered (third_time d.made))
    × (d.last_status ≡ status_of (third_time d.made))
    × ((d.success ≡ true) ⊎ (d.made ≡ 5))
    × (d.slept + 1000000000 ≡ 1000000000 * 2 ^ (d.made - 1))
deliver_lem_example = deliver_lem third_time 1000000000 5 (omega arith)

abbrev failure : DeliveryAttempt
failure = record {
  event_type = "sandbox.running";
  timestamp = 6000000000;
  status_code = 503;
  attempt = 5;
  success = false;
}

abbrev two_calls : List Recorded
two_calls =
    (record { outcome = record { loads = true; saves = true }; id = "s1"; attempt = failure })
    ∷ (record { outcome = record { loads = true; saves = false }; id = "s1"; attempt = failure })
    ∷ []

record_all_lem_example :
    or_fresh (
      (record_all 2
          (record { cursor = since_three; subscriptions = λ k. none })
          two_calls).subscriptions
        "s1")
    ≡ summary (attempts_of "s1" two_calls)
record_all_lem_example = record_all_lem 2 since_three "s1" two_calls

abbrev subscribed : Subscription
subscribed = record {
  id = "s1";
  user_id = "u1";
  url = "https://example.org/hook";
  event_types = "sandbox.running" ∷ [];
  sandbox_id = "";
  namespace = "default";
  disabled = false;
  is_admin = false;
}

abbrev u1_owns : Event → Option SandboxAccess
u1_owns evt = some (record { created_by = some "u1"; sharing = none })

abbrev pass_env : PassEnv
pass_env = record {
  now = 9000000000;
  loaded = some since_three;
  listed = some (at_five ∷ []);
  subscriptions = some (subscribed ∷ [], ("s1", "secret") ∷ []);
  access = u1_owns;
  saves = true;
}

run_once-Entitled_example :
    Reads insertion_sort pass_env (λ new. Dispatches pass_env new at_five "s1")
unfolding run_once list_new_events recipients receives matches can_access_sandbox
    webhook_type_for_reason lookup user_can_access_sandbox max_seen
run_once-Entitled_example =
    run_once-Entitled insertion_sort pass_env at_five ("s1" ∷ []) "s1" (inl refl) (inl refl)
