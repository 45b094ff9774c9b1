-- ===== src/Webhook/Cursor.antt =====
-- The cursor loses no event and delivers none twice.
use agenttier.Prelude.{
  ℕ, ◌*◌, ◌/◌, ◌≤◌, ◌<◌, String, Bool, true, false, none, some, List, [], ◌∷◌, ◌++◌, ◌≡◌, refl, ap,
  subst, ◌↔◌, ◌⊎◌, inl, inr, arith, eq_iff, All, if◌then◌else◌, ltb, ◌==◌, In, keep, In-keep,
}
use agenttier.Webhook.Events.{
  Event, CursorState, is_sandbox_event, max_seen, is_seen, is_new, uids_at, time_of,
  list_new_events,
}

-- What is relied on of `sort.Slice`: it has the same entries, earlier times first.
abbrev pub InOrder : List Event → Type 0
InOrder [] = Unit
InOrder (e ∷ events) =
    All (λ (f : Event). e.last_timestamp ≤ f.last_timestamp) events × InOrder events

pub record SortsByTime (sort_slice : List Event → List Event) : Type 0 where
  pub same : (e : Event) (events : List Event) → In e (sort_slice events) ↔ In e events
  pub in_order : (events : List Event) → InOrder (sort_slice events)

-- No listed event is later than the largest time found, which is at least the one at the start.
max_seen-le : (seen : ℕ) (events : List Event) → seen ≤ max_seen seen events
unfolding max_seen
max_seen-le seen [] = omega arith
max_seen-le seen (e ∷ events) =
    ground
      (arith, max_seen-le (if ltb seen e.last_timestamp then e.last_timestamp else seen) events)

le-max_seen :
    (seen : ℕ) (e : Event) (events : List Event)
    → In e events
    → e.last_timestamp ≤ max_seen seen events
unfolding max_seen
le-max_seen seen e [] m = absurd m
le-max_seen seen e (f ∷ events) (inl same) =
    ground
      (arith, max_seen-le (if ltb seen f.last_timestamp then f.last_timestamp else seen) events)
le-max_seen seen e (f ∷ events) (inr later) =
    le-max_seen (if ltb seen f.last_timestamp then f.last_timestamp else seen) e events later

-- A pass that is not the first delivers exactly the sandbox events that are later than the cursor, or
-- of its very time and not yet seen, earlier ones first.
pub list_new_events-In :
    (sort_slice : List Event → List Event) (now cursor : ℕ) (seen : List String)
    (items : List Event) (e : Event)
    → SortsByTime sort_slice
    → let out =
        list_new_events sort_slice now (record { cursor = some cursor; seen_uids = seen }) items in
      (In e out.events ↔ (
        In e items
        × (is_sandbox_event e ≡ true)
        × ((cursor < e.last_timestamp)
            ⊎ ((e.last_timestamp ≡ cursor) × (is_seen seen e.uid ≡ false)))))
      × InOrder out.events
unfolding list_new_events
list_new_events-In sort_slice now cursor seen items e sorts =
    let (to, from) = In-keep (is_new cursor seen) e (keep is_sandbox_event items) in
    let (in_items, back) = In-keep is_sandbox_event e items in
    let (unsort, resort) = sorts.same e (keep (is_new cursor seen) (keep is_sandbox_event items)) in
    (
      (
        λ m.
            let (m', new) = to (unsort m) in
            let (m'', sandbox) = in_items m' in (m'', sandbox, ground arith),
        λ h. resort (from (back (h.0, h.1), ground arith)),
      ),
      sorts.in_order _,
    )

is_seen-append :
    (us vs : List String) (uid : String) → is_seen vs uid ≡ true → is_seen (us ++ vs) uid ≡ true
is_seen-append [] vs uid h = h
is_seen-append (u ∷ us) vs uid h = ground (arith, is_seen-append us vs uid h)

is_seen-uids_at :
    (ts : ℕ) (e : Event) (events : List Event)
    → In e events
    → e.last_timestamp ≡ ts
    → is_seen (uids_at ts events) e.uid ≡ true
is_seen-uids_at ts e [] m h = absurd m
is_seen-uids_at ts e (f ∷ events) (inl same) h =
    ground (arith, eq_iff f.uid e.uid, ap (λ (x : Event). x.uid) same)
is_seen-uids_at ts e (f ∷ events) (inr later) h = ground (arith, is_seen-uids_at ts e events later)

clash_seen : {b : Bool} → b ≡ true → b ≡ false → ⊥
clash_seen h k = cc

-- What a pass persists covers a sandbox event that it has listed: the event is not later than the new
-- cursor, and if it is of the very time of the cursor, it is seen.
covered :
    (sort_slice : List Event → List Event) (now : ℕ) (state : CursorState) (items : List Event)
    (e : Event)
    → In e items
    → is_sandbox_event e ≡ true
    → let next = (list_new_events sort_slice now state items).next in
      (c : ℕ) × (next.cursor ≡ some c)
      × (e.last_timestamp ≤ c)
      × (e.last_timestamp ≡ c → is_seen next.seen_uids e.uid ≡ true)
unfolding list_new_events
covered sort_slice now state items e m sandbox =
    let evs = keep is_sandbox_event items in
    let here : In e evs = (In-keep is_sandbox_event e items).1 (m, sandbox) in
    let seen = max_seen (time_of state.cursor) evs in
    let top = if seen == 0 then now else seen in
    let below : e.last_timestamp ≤ seen = le-max_seen (time_of state.cursor) e evs here in
    (
      top,
      refl,
      ground arith,
      λ same. ground (
        arith,
        is_seen-uids_at top e evs here same,
        is_seen-append state.seen_uids (uids_at top evs) e.uid
            (is_seen-uids_at top e evs here same),
      ),
    )

-- A sandbox event that one pass has listed, be it to deliver it, to skip it as seen, or as backlog of
-- the first pass ever, is not delivered by the next pass from the cursor that the first one persists.
pub list_new_events_once :
    (sort_slice : List Event → List Event) (now later : ℕ) (state : CursorState)
    (items relisted : List Event) (e : Event)
    → SortsByTime sort_slice
    → In e items
    → is_sandbox_event e ≡ true
    → let first = list_new_events sort_slice now state items in
      ¬ In e (list_new_events sort_slice later first.next relisted).events
list_new_events_once sort_slice now later state items relisted e sorts m sandbox again =
    let (c, at, before, seen) = covered sort_slice now state items e m sandbox in
    uncovered c at before seen
  where
    next : CursorState
    next = (list_new_events sort_slice now state items).next

    uncovered :
        (c : ℕ)
        → next.cursor ≡ some c
        → e.last_timestamp ≤ c
        → (e.last_timestamp ≡ c → is_seen next.seen_uids e.uid ≡ true)
        → ⊥
    uncovered c at before seen =
        let moved : In e
            (list_new_events sort_slice later
              (record { cursor = some c; seen_uids = next.seen_uids }) relisted).events =
          subst
            (λ k.
              In e
                (list_new_events sort_slice later
                  (record { cursor = k; seen_uids = next.seen_uids }) relisted).events)
            at again in
        let (_, _, new) =
          (list_new_events-In sort_slice later c next.seen_uids relisted e sorts).0.0 moved in
        elim new [ inl after ↦ omega arith | inr fresh ↦ clash_seen (seen fresh.0) fresh.1 ]

empty_next :
    (sort_slice : List Event → List Event) (now : ℕ) (items : List Event)
    → keep is_sandbox_event items ≡ []
    → (list_new_events sort_slice now (record { cursor = none; seen_uids = [] }) items).next
      ≡ record { cursor = some now; seen_uids = [] }
unfolding list_new_events
empty_next sort_slice now items e = ground arith

-- The first pass over a cluster with no sandbox events takes the clock's reading as its cursor, to
-- the nanosecond, while events are stamped with whole seconds. An event after that pass whose second
-- began before it is never delivered.
pub bootstrap_loses :
    (sort_slice : List Event → List Event) (now later happened : ℕ) (items relisted : List Event)
    (e : Event)
    → SortsByTime sort_slice
    → keep is_sandbox_event items ≡ []
    → now < happened
    → e.last_timestamp ≡ happened / 1000000000 * 1000000000
    → e.last_timestamp < now
    → let first = list_new_events sort_slice now (record { cursor = none; seen_uids = [] }) items in
      ¬ In e (list_new_events sort_slice later first.next relisted).events
bootstrap_loses sort_slice now later happened items relisted e sorts none_yet after stamped early
      again =
    let moved =
      subst (λ next. In e (list_new_events sort_slice later next relisted).events)
        (empty_next sort_slice now items none_yet) again in
    let (_, _, new) = (list_new_events-In sort_slice later now [] relisted e sorts).0.0 moved in
    omega arith
