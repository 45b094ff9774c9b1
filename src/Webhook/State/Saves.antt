-- ===== src/Webhook/State/Saves.antt =====
-- What a load shows of the ConfigMap of pkg/controller/webhook_delivery/state.go and what a save leaves in
-- it, under the laws of the API server.
use agenttier.Prelude.{
  String, false, Option, none, some, ◌≡◌, ◌≢◌, refl, sym, ap, ◌∙◌, inl, inr, arith, eq_iff,
  name_cases,
}
use agenttier.Governance.Store.{
  not_found, already_exists, conflict, unavailable, unparsable, unserializable, Outcome, done,
  failed,
}
use agenttier.Webhook.State.{PersistedState}
use agenttier.Webhook.State.Store.{
  ConfigMap, Client, empty_state, loaded, parsed, overwrite, after_create, save_raw,
}

-- What the code relies on. The API server stores one ConfigMap, `stored`: a read gives it, a create
-- is done only where there is none, an update only at the version that it names; and the JSON of a
-- state is not empty and is read back as the same state.
pub record Serves (c : Client) : Type 0 where
  pub stored : c.World → Option (ConfigMap c.Raw)
  pub versioned : (w : c.World) (cm : ConfigMap c.Raw) → stored w ≡ some cm → cm.version ≢ ""
  pub get-done :
      (w w' : c.World) (cm : ConfigMap c.Raw)
      → c.get w ≡ (done cm, w')
      → (stored w ≡ some cm) × (stored w' ≡ some cm)
  pub get-not_found :
      (w w' : c.World) → c.get w ≡ (failed not_found, w') → (stored w ≡ none) × (stored w' ≡ none)
  pub create-done :
      (w w' : c.World) (raw : c.Raw)
      → c.create w raw ≡ (done tt, w')
      → (stored w ≡ none)
        × ((v : String) × (stored w' ≡ some (record { raw = some raw; version = v })))
  pub create-already_exists :
      (w w' : c.World) (raw : c.Raw)
      → c.create w raw ≡ (failed already_exists, w')
      → (cm : ConfigMap c.Raw) × (stored w ≡ some cm)
  pub update-done :
      (w w' : c.World) (cm : ConfigMap c.Raw)
      → c.update w cm ≡ (done tt, w')
      → cm.version ≢ ""
      → ((old : ConfigMap c.Raw) × (stored w ≡ some old) × (old.version ≡ cm.version))
        × ((v : String) × (stored w' ≡ some (record { raw = cm.raw; version = v })))
  pub unmarshal-marshal :
      (s : PersistedState) (raw : c.Raw)
      → c.marshal s ≡ some raw
      → (c.is_blank raw ≡ false)
        × ((s' : PersistedState) × (c.unmarshal raw ≡ some s')
            × (s'.cursor ≡ s.cursor)
            × ((k : String) → s'.subscriptions k ≡ s.subscriptions k))

module _ (c : Client) (laws : Serves c) where
  open c use {World, Raw, get, create, update, marshal}
  open laws use {
    stored, versioned, get-done, get-not_found, create-done, create-already_exists, update-done,
    unmarshal-marshal,
  }

  abbrev pub state_of : Outcome (PersistedState × String) → PersistedState
  state_of (done (s, _)) = s
  state_of (failed e) = empty_state

  -- The state that is stored.
  abbrev pub contents : Option (ConfigMap Raw) → PersistedState
  contents none = empty_state
  contents (some cm) = state_of (parsed c cm)

  -- What a save leaves, and where it found the ConfigMap: absent, created by another writer, or at the
  -- version of the load.
  pub data How (version : String) (before : Option (ConfigMap Raw)) : Type 0 where
    created : version ≡ "" → before ≡ none → How version before
    raced : version ≡ "" → (cm : ConfigMap Raw) → before ≡ some cm → How version before
    updated : (cm : ConfigMap Raw) → before ≡ some cm → cm.version ≡ version → How version before

  pub record Saved (s : PersistedState) (version : String) (w w' : World) : Type 0 where
    pub raw : Raw
    pub new_version : String
    pub marshalled : marshal s ≡ some raw
    pub stored_now : stored w' ≡ some (record { raw = some raw; version = new_version })
    pub how : How version (stored w)

  module _ (s : PersistedState) (raw : Raw) (version : String) (w w' : World)
      (e : marshal s ≡ some raw) where
    overwrite-Saved :
        (w1 : World) (answer : Outcome (ConfigMap Raw) × World)
        → get w1 ≡ answer
        → version ≡ ""
        → ((cm : ConfigMap Raw) × (stored w ≡ some cm))
        → overwrite c raw answer ≡ (done tt, w')
        → Saved s version w w'
    overwrite-Saved w1 (done cm, w2) g empty (old, was) h =
        let (at, _) = get-done w1 w2 cm g in
        let (_, (v, now)) =
          update-done w2 w' (record cm { raw = some raw }) h (versioned w1 cm at) in
        record {
          raw = raw;
          new_version = v;
          marshalled = e;
          stored_now = now;
          how = raced empty old was;
        }
    overwrite-Saved w1 (failed x, w2) g empty was h = cc

    after_create-Saved :
        (answer : Outcome (Unit {0}) × World)
        → create w raw ≡ answer
        → version ≡ ""
        → after_create c raw answer ≡ (done tt, w')
        → Saved s version w w'
    after_create-Saved (done _, w1) g empty h =
        let same : w1 ≡ w' = ap (λ (p : Outcome (Unit {0}) × World). p.1) h in
        let (none_before, (v, now)) = create-done w w1 raw g in
        record {
          raw = raw;
          new_version = v;
          marshalled = e;
          stored_now = rw (sym same) now;
          how = created empty none_before;
        }
    after_create-Saved (failed already_exists, w1) g empty h =
        overwrite-Saved w1 (get w1) refl empty (create-already_exists w w1 raw g) h
    after_create-Saved (failed not_found, w1) g empty h = cc
    after_create-Saved (failed conflict, w1) g empty h = cc
    after_create-Saved (failed unavailable, w1) g empty h = cc
    after_create-Saved (failed unparsable, w1) g empty h = cc
    after_create-Saved (failed unserializable, w1) g empty h = cc

    save_raw-Saved : save_raw c (some raw) version w ≡ (done tt, w') → Saved s version w w'
    save_raw-Saved h = elim (name_cases version "") [
      | inl empty ↦ after_create-Saved (create w raw) refl empty (ground (arith, eq_iff version ""))
      | inr named ↦
          let update_done : update w (record { raw = some raw; version = version })
              ≡ (done tt, w') =
            ground arith in
          let ((old, was, at), (v, now)) =
            update-done w w' (record { raw = some raw; version = version }) update_done
              (λ same. ground (arith, eq_iff version "")) in
          record {
            raw = raw;
            new_version = v;
            marshalled = e;
            stored_now = now;
            how = updated old was at;
          }
    ]

  pub save-Saved :
      (s : PersistedState) (version : String) (w w' : World) (text : Option Raw)
      → marshal s ≡ text
      → save_raw c text version w ≡ (done tt, w')
      → Saved s version w w'
  save-Saved s version w w' none e h = cc
  save-Saved s version w w' (some raw) e h = save_raw-Saved s raw version w w' e h

  -- What was saved is read back.
  pub contents-Saved :
      {s : PersistedState} {version : String} {w w' : World}
      → Saved s version w w'
      → ((contents (stored w')).cursor ≡ s.cursor)
        × ((k : String) → (contents (stored w')).subscriptions k ≡ s.subscriptions k)
  contents-Saved {s} {version} {w} {w'} saved =
      let (some_text, (s', back, cursor, subs)) = unmarshal-marshal s saved.raw saved.marshalled in
      rw (saved.stored_now, some_text, back) (cursor, subs)

  -- What a load that was answered shows of the store.
  pub record Loaded (s : PersistedState) (version : String) (w : World) : Type 0 where
    pub named : version ≢ "" → (cm : ConfigMap Raw) × (stored w ≡ some cm) × (cm.version ≡ version)
    pub unnamed : version ≡ "" → stored w ≡ none
    pub same_contents : s ≡ contents (stored w)

  parsed-version :
      (cm : ConfigMap Raw) (s : PersistedState) (version : String)
      → parsed c cm ≡ done (s, version)
      → (cm.version ≡ version) × (state_of (parsed c cm) ≡ s)
  parsed-version cm s version h = (ground arith, ap state_of h)

  pub loaded-Loaded :
      (w w1 : World) (answer : Outcome (ConfigMap Raw)) (s : PersistedState) (version : String)
      → get w ≡ (answer, w1)
      → loaded c answer ≡ done (s, version)
      → Loaded s version w
  loaded-Loaded w w1 (done cm) s version g h =
      let (at, _) = get-done w w1 cm g in
      let (v, found) = parsed-version cm s version h in
      record {
        named = λ _. (cm, at, v);
        unnamed = λ empty. absurd (versioned w cm at (v ∙ empty));
        same_contents = rw at (sym found);
      }
  loaded-Loaded w w1 (failed not_found) s version g h =
      let (nothing, _) = get-not_found w w1 g in
      let empty : version ≡ "" = ground arith in
      record {
        named = λ some_version. absurd (some_version empty);
        unnamed = λ _. nothing;
        same_contents = rw nothing (sym (ap state_of h));
      }
  loaded-Loaded w w1 (failed already_exists) s version g h = cc
  loaded-Loaded w w1 (failed conflict) s version g h = cc
  loaded-Loaded w w1 (failed unavailable) s version g h = cc
  loaded-Loaded w w1 (failed unparsable) s version g h = cc
  loaded-Loaded w w1 (failed unserializable) s version g h = cc
