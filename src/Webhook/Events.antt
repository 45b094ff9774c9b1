-- ===== src/Webhook/Events.antt =====
-- listNewEvents of pkg/controller/webhook_delivery/deliverer.go: the events to deliver past a cursor.
-- A timestamp is a number, 0 for the zero time; formatting and parsing one as RFC 3339 with
-- nanoseconds gives it back, so the cursor is kept as the number, and `none` is the empty cursor.
-- `sort.Slice` is a parameter.
use agenttier.Prelude.{
  ℕ, String, Bool, true, false, not, ◌&&◌, Option, none, some, List, [], ◌∷◌, ◌++◌, any,
  if◌then◌else◌, ltb, ◌==◌, str_eq, map, keep,
}

pub record Event : Type 0 where
  pub uid : String
  pub kind : String
  pub last_timestamp : ℕ
  pub reason : String
  pub name : String
  pub namespace : String

pub record CursorState : Type 0 where
  pub cursor : Option ℕ
  pub seen_uids : List String

abbrev pub is_sandbox_event : Event → Bool
is_sandbox_event evt = str_eq evt.kind "Sandbox" && not (evt.last_timestamp == 0)

-- `if ts.After(maxSeen) { maxSeen = ts }` over the events.
unfoldable pub max_seen : ℕ → List Event → ℕ
max_seen seen [] = seen
max_seen seen (evt ∷ events) =
    max_seen (if ltb seen evt.last_timestamp then evt.last_timestamp else seen) events

abbrev pub is_seen : List String → String → Bool
is_seen uids uid = any (λ u. str_eq u uid) uids

-- The tests of the second pass on one event, after a first run.
abbrev pub is_new : ℕ → List String → Event → Bool
is_new cursor_time seen evt =
    if ltb evt.last_timestamp cursor_time
    then false
    else (if evt.last_timestamp == cursor_time && is_seen seen evt.uid then false else true)

abbrev pub uids_at : ℕ → List Event → List String
uids_at ts events = map (λ (e : Event). e.uid) (keep (λ e. e.last_timestamp == ts) events)

pub record NewEvents : Type 0 where
  pub events : List Event
  pub next : CursorState
  pub bootstrap : Bool

abbrev pub time_of : Option ℕ → ℕ
time_of none = 0
time_of (some ts) = ts

abbrev pub is_bootstrap : Option ℕ → Bool
is_bootstrap none = true
is_bootstrap (some ts) = false

-- `now` is the clock's reading, `items` what the API server lists.
unfoldable pub list_new_events :
    (List Event → List Event) → ℕ → CursorState → List Event → NewEvents
unfolding max_seen
list_new_events sort_slice now state items =
    let cursor_time = time_of state.cursor in
    let sandbox_events = keep is_sandbox_event items in
    let seen = max_seen cursor_time sandbox_events in
    let top = if seen == 0 then now else seen in
    let at_top = uids_at top sandbox_events in
    record {
      events = sort_slice (
          if is_bootstrap state.cursor
          then []
          else keep (is_new cursor_time state.seen_uids) sandbox_events);
      next = record {
        cursor = some top;
        seen_uids = if top == cursor_time then state.seen_uids ++ at_top else at_top;
      };
      bootstrap = is_bootstrap state.cursor;
    }
