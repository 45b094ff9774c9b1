-- ===== src/Webhook/State/Store.antt =====
-- Store of pkg/controller/webhook_delivery/state.go: the delivery state as JSON in one ConfigMap, with
-- its resource version. The client of the Kubernetes API and encoding/json are an interface.
use agenttier.Prelude.{String, Bool, Option, none, some, [], if◌then◌else◌, str_eq}
use agenttier.Governance.Store.{
  not_found, already_exists, unparsable, unserializable, Outcome, done, failed,
}
use agenttier.Webhook.Events.{CursorState}
use agenttier.Webhook.State.{PersistedState}

-- The key "state" of the ConfigMap's data, if it is there, and the resource version.
pub record ConfigMap (Raw : Type 0) : Type 0 where
  pub raw : Option Raw
  pub version : String

-- The client's calls on the one ConfigMap, encoded texts, whether one is empty, and `json.Marshal` and
-- `json.Unmarshal` of the state.
pub record Client : Type 1 where
  pub World : Type 0
  pub Raw : Type 0
  pub get : World → Outcome (ConfigMap Raw) × World
  pub create : World → Raw → Outcome (Unit {0}) × World
  pub update : World → ConfigMap Raw → Outcome (Unit {0}) × World
  pub is_blank : Raw → Bool
  pub marshal : PersistedState → Option Raw
  pub unmarshal : Raw → Option PersistedState

abbrev pub empty_state : PersistedState
empty_state = record {
  cursor = record { cursor = none; seen_uids = [] };
  subscriptions = λ k. none;
}

abbrev pub with_cursor : CursorState → PersistedState → PersistedState
with_cursor next state = record state { cursor = next }

module _ (c : Client) where
  open c use {World, Raw, get, create, update, is_blank, marshal, unmarshal}

  abbrev pub parsed_or : Option PersistedState → String → Outcome (PersistedState × String)
  parsed_or none version = failed unparsable
  parsed_or (some state) version = done (state, version)

  abbrev pub parsed : ConfigMap Raw → Outcome (PersistedState × String)
  parsed cm = elim cm.raw [
    | none ↦ done (empty_state, cm.version)
    | some raw ↦
        if is_blank raw
        then done (empty_state, cm.version)
        else parsed_or (unmarshal raw) cm.version
  ]

  abbrev pub loaded : Outcome (ConfigMap Raw) → Outcome (PersistedState × String)
  loaded (done cm) = parsed cm
  loaded (failed not_found) = done (empty_state, "")
  loaded (failed e) = failed e

  unfoldable pub load : World → Outcome (PersistedState × String) × World
  load w = let (answer, w') = get w in (loaded answer, w')

  -- The ConfigMap was created by another writer meanwhile: it is read again and written over.
  abbrev pub overwrite : Raw → Outcome (ConfigMap Raw) × World → Outcome (Unit {0}) × World
  overwrite raw (done cm, w) = update w (record cm { raw = some raw })
  overwrite raw (failed e, w) = (failed e, w)

  abbrev pub after_create : Raw → Outcome (Unit {0}) × World → Outcome (Unit {0}) × World
  after_create raw (done _, w) = (done tt, w)
  after_create raw (failed already_exists, w) = overwrite raw (get w)
  after_create raw (failed e, w) = (failed e, w)

  abbrev pub save_raw : Option Raw → String → World → Outcome (Unit {0}) × World
  save_raw none version w = (failed unserializable, w)
  save_raw (some raw) version w =
      if str_eq version ""
      then after_create raw (create w raw)
      else update w (record { raw = some raw; version = version })

  unfoldable pub save : PersistedState → String → World → Outcome (Unit {0}) × World
  save state version w = save_raw (marshal state) version w

  -- `others` is what other writers do between the load and the save.
  abbrev pub save_loaded :
      CursorState
      → (World → World)
      → Outcome (PersistedState × String) × World
      → Outcome (Unit {0}) × World
  save_loaded next others (done (state, version), w) =
      save (with_cursor next state) version (others w)
  save_loaded next others (failed e, w) = (failed e, w)

  unfoldable pub save_cursor_state :
      CursorState → (World → World) → World → Outcome (Unit {0}) × World
  save_cursor_state next others w = save_loaded next others (load w)

  abbrev pub cursor_of : Outcome (PersistedState × String) × World → Outcome CursorState × World
  cursor_of (done (state, _), w) = (done state.cursor, w)
  cursor_of (failed e, w) = (failed e, w)

  unfoldable pub load_cursor_state : World → Outcome CursorState × World
  load_cursor_state w = cursor_of (load w)
