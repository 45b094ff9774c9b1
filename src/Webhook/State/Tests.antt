-- ===== src/Webhook/State/Tests.antt =====
-- The theorem on the stored cursor at a concrete input.
use agenttier.Prelude.{
  String, false, Option, none, some, [], ◌∷◌, ◌≡◌, ◌≢◌, refl, sym, ap, arith, str_eq, eq_iff,
  if◌then◌else◌, inl, inr, Bool-cases,
}
use agenttier.Governance.Store.{Outcome, done, failed, not_found, already_exists, conflict}
use agenttier.Webhook.Events.{CursorState}
use agenttier.Webhook.State.{PersistedState, history_of}
use agenttier.Webhook.State.Store.{
  ConfigMap, Client, with_cursor, load, save, save_cursor_state, load_cursor_state,
}
use agenttier.Webhook.State.Roundtrip.{load_cursor_state-save_cursor_state}
use agenttier.Webhook.State.Saves.{Serves, contents}

-- A store of one ConfigMap at the version "v", in which a state is its own encoding.
abbrev Kept : Type 0
Kept = Option (Option PersistedState)

abbrev stored_map : Kept → Option (ConfigMap PersistedState)
stored_map none = none
stored_map (some raw) = some (record { raw = raw; version = "v" })

abbrev get_map : Kept → Outcome (ConfigMap PersistedState) × Kept
get_map none = (failed not_found, none)
get_map (some raw) = (done (record { raw = raw; version = "v" }), some raw)

abbrev create_map : Kept → PersistedState → Outcome (Unit {0}) × Kept
create_map none raw = (done tt, some (some raw))
create_map (some old) raw = (failed already_exists, some old)

abbrev update_map : Kept → ConfigMap PersistedState → Outcome (Unit {0}) × Kept
update_map none cm = (failed not_found, none)
update_map (some old) cm =
    if str_eq "v" cm.version then (done tt, some cm.raw) else (failed conflict, some old)

abbrev state_store : Client
state_store = record {
  World = Kept;
  Raw = PersistedState;
  get = get_map;
  create = create_map;
  update = update_map;
  is_blank = λ raw. false;
  marshal = λ s. some s;
  unmarshal = λ raw. some raw;
}

versioned_map :
    (w : Kept) (cm : ConfigMap PersistedState) → stored_map w ≡ some cm → cm.version ≢ ""
versioned_map none cm h = cc
versioned_map (some raw) cm h = λ e. ground (arith, eq_iff "v" "")

get_map-done :
    (w w' : Kept) (cm : ConfigMap PersistedState)
    → get_map w ≡ (done cm, w')
    → (stored_map w ≡ some cm) × (stored_map w' ≡ some cm)
get_map-done none w' cm h = cc
get_map-done (some raw) w' cm h =
    let same : some raw ≡ w' = ground arith in
    let its : record { raw = raw; version = "v" } ≡ cm = ground arith in
    (ap some its, rw (sym same) (ap some its))

get_map-not_found :
    (w w' : Kept)
    → get_map w ≡ (failed not_found, w')
    → (stored_map w ≡ none) × (stored_map w' ≡ none)
get_map-not_found none w' h = let same : none ≡ w' = ground arith in (refl, rw (sym same) refl)
get_map-not_found (some raw) w' h = cc

create_map-done :
    (w w' : Kept) (raw : PersistedState)
    → create_map w raw ≡ (done tt, w')
    → (stored_map w ≡ none)
      × ((v : String) × (stored_map w' ≡ some (record { raw = some raw; version = v })))
create_map-done none w' raw h =
    let same : some (some raw) ≡ w' = ground arith in (refl, ("v", rw (sym same) refl))
create_map-done (some old) w' raw h = cc

create_map-already_exists :
    (w w' : Kept) (raw : PersistedState)
    → create_map w raw ≡ (failed already_exists, w')
    → (cm : ConfigMap PersistedState) × (stored_map w ≡ some cm)
create_map-already_exists none w' raw h = cc
create_map-already_exists (some old) w' raw h = (record { raw = old; version = "v" }, refl)

update_map-done :
    (w w' : Kept) (cm : ConfigMap PersistedState)
    → update_map w cm ≡ (done tt, w')
    → cm.version ≢ ""
    → ((old : ConfigMap PersistedState) × (stored_map w ≡ some old) × (old.version ≡ cm.version))
      × ((v : String) × (stored_map w' ≡ some (record { raw = cm.raw; version = v })))
update_map-done none w' cm h named = cc
update_map-done (some old) w' cm h named = elim (Bool-cases (str_eq "v" cm.version)) [
  | inl same ↦
      let after : some cm.raw ≡ w' = ground arith in
      (
        (record { raw = old; version = "v" }, refl, (eq_iff "v" cm.version).0 same),
        ("v", rw (sym after) refl),
      )
  | inr other ↦ absurd (ground arith)
]

some_state : {x y : PersistedState} → some x ≡ some y → y ≡ x
some_state h = cc

abbrev state_store-Serves : Serves state_store
state_store-Serves = record {
  stored = stored_map;
  versioned = versioned_map;
  get-done = get_map-done;
  get-not_found = get_map-not_found;
  create-done = create_map-done;
  create-already_exists = create_map-already_exists;
  update-done = update_map-done;
  unmarshal-marshal = λ s raw h.
      let same = some_state h in
      (
        refl,
        (
          raw,
          refl,
          ap (λ (x : PersistedState). x.cursor) same,
          λ k. ap (λ (x : PersistedState). x.subscriptions k) same,
        ),
      );
}

abbrev failed_once : PersistedState
failed_once = record {
  cursor = record { cursor = some 3000000000; seen_uids = "e0" ∷ [] };
  subscriptions = λ k. some (record {
    consecutive_failures = 1;
    history =
        (record {
          event_type = "sandbox.running";
          timestamp = 3000000000;
          status_code = 500;
          attempt = 5;
          success = false;
        })
        ∷ [];
  });
}

abbrev since_nine : CursorState
since_nine = record { cursor = some 9000000000; seen_uids = [] }

abbrev saved_state : PersistedState
saved_state = with_cursor since_nine failed_once

saves :
    save_cursor_state state_store since_nine (λ w. w) (some (some failed_once))
    ≡ (done tt, some (some saved_state))
unfolding save_cursor_state load save
saves = refl

loads :
    load_cursor_state state_store (some (some saved_state))
    ≡ (done since_nine, some (some saved_state))
unfolding load_cursor_state load
loads = refl

load_cursor_state-save_cursor_state_example :
    (since_nine ≡ since_nine)
    × (((a b : ConfigMap PersistedState)
          → stored_map (some (some failed_once)) ≡ some a
          → stored_map ((load state_store (some (some failed_once))).1) ≡ some b
          → a.version ≡ b.version
          → a ≡ b)
        → (stored_map (some (some failed_once)) ≡ none
            → stored_map ((load state_store (some (some failed_once))).1) ≡ none)
        → (id : String)
        → history_of
            (contents state_store state_store-Serves (stored_map (some (some saved_state))))
            id
          ≡ history_of
              (contents state_store state_store-Serves
                (stored_map ((load state_store (some (some failed_once))).1)))
              id)
load_cursor_state-save_cursor_state_example =
    load_cursor_state-save_cursor_state state_store state_store-Serves (λ w. w)
      (some (some failed_once)) (some (some saved_state)) (some (some saved_state)) since_nine
      since_nine saves loads
