-- ===== src/Governance/Store/Saves.antt =====
-- What a load shows of the ConfigMap and what a save leaves in it, under the laws of the API server.
use agenttier.Prelude.{
  String, Option, none, some, [], ◌∷◌, if◌then◌else◌, str_eq, ◌≡◌, ◌≢◌, refl, sym, ap, ◌∙◌, inl,
  inr, arith, eq_iff, name_cases,
}
use agenttier.Governance.Policy.{Policy}
use agenttier.Webhook.Subscription.{lookup}
use agenttier.Governance.Store.{
  Policies, ConfigMap, not_found, already_exists, conflict, unavailable, unparsable, unserializable,
  Outcome, done, failed, Client, insert, erase, loaded, parsed, save_raw, after_create, overwrite,
}

-- What the code relies on. The API server stores one ConfigMap, `stored`: a read gives it, a create
-- is done only where there is none, an update only at the version that it names; and the JSON of a
-- map is read back as the same map.
pub record Serves (c : Client) : Type 0 where
  pub stored : c.World → Option ConfigMap
  pub versioned : (w : c.World) (cm : ConfigMap) → stored w ≡ some cm → cm.version ≢ ""
  pub get-done :
      (w w' : c.World) (cm : ConfigMap)
      → c.get w ≡ (done cm, w')
      → (stored w ≡ some cm) × (stored w' ≡ some cm)
  pub get-not_found :
      (w w' : c.World) → c.get w ≡ (failed not_found, w') → (stored w ≡ none) × (stored w' ≡ none)
  pub create-done :
      (w w' : c.World) (raw : String)
      → c.create w raw ≡ (done tt, w')
      → (stored w ≡ none)
        × ((v : String) × (stored w' ≡ some (record { raw = some raw; version = v })))
  pub create-already_exists :
      (w w' : c.World) (raw : String)
      → c.create w raw ≡ (failed already_exists, w')
      → (cm : ConfigMap) × (stored w ≡ some cm)
  pub update-done :
      (w w' : c.World) (cm : ConfigMap)
      → c.update w cm ≡ (done tt, w')
      → cm.version ≢ ""
      → ((old : ConfigMap) × (stored w ≡ some old) × (old.version ≡ cm.version))
        × ((v : String) × (stored w' ≡ some (record { raw = cm.raw; version = v })))
  pub unmarshal-marshal :
      (m : Policies) (raw : String)
      → c.marshal m ≡ some raw
      → (raw ≢ "")
        × ((m' : Policies) × (c.unmarshal raw ≡ some m')
            × ((k : String) → lookup k m' ≡ lookup k m))

module _ (c : Client) (laws : Serves c) where
  open c use {World, get, create, update, marshal, unmarshal}
  open laws use {
    stored, versioned, get-done, get-not_found, create-done, create-already_exists, update-done,
    unmarshal-marshal,
  }

  abbrev pub policies_of : Outcome (Policies × String) → Policies
  policies_of (done (m, _)) = m
  policies_of (failed e) = []

  -- The policies that are stored.
  abbrev pub contents : Option ConfigMap → Policies
  contents none = []
  contents (some cm) = policies_of (parsed c cm)

  -- How a save came about: by a create, over another writer's create, or at the version of the load.
  pub data How (version : String) (before : Option ConfigMap) : Type 0 where
    created : version ≡ "" → before ≡ none → How version before
    raced : version ≡ "" → (cm : ConfigMap) → before ≡ some cm → How version before
    updated : (cm : ConfigMap) → before ≡ some cm → cm.version ≡ version → How version before

  pub record Saved (m : Policies) (version : String) (w w' : World) : Type 0 where
    pub raw : String
    pub new_version : String
    pub marshalled : marshal m ≡ some raw
    pub stored_now : stored w' ≡ some (record { raw = some raw; version = new_version })
    pub how : How version (stored w)

  module _ (m : Policies) (raw version : String) (w w' : World) (e : marshal m ≡ some raw) where
    overwrite-Saved :
        (w1 : World) (answer : Outcome ConfigMap × World)
        → get w1 ≡ answer
        → version ≡ ""
        → ((cm : ConfigMap) × (stored w ≡ some cm))
        → overwrite c raw answer ≡ (done tt, w')
        → Saved m version w w'
    overwrite-Saved w1 (done cm, w2) g empty (old, was) h =
        let (at, _) = get-done w1 w2 cm g in
        let (_, (v, now)) =
          update-done w2 w' (record cm { raw = some raw }) h (versioned w1 cm at) in
        record {
          raw = raw;
          new_version = v;
          marshalled = e;
          stored_now = now;
          how = raced empty old was;
        }
    overwrite-Saved w1 (failed x, w2) g empty was h = cc

    after_create-Saved :
        (answer : Outcome (Unit {0}) × World)
        → create w raw ≡ answer
        → version ≡ ""
        → after_create c raw answer ≡ (done tt, w')
        → Saved m version w w'
    after_create-Saved (done _, w1) g empty h =
        let same : w1 ≡ w' = ap (λ (p : Outcome (Unit {0}) × World). p.1) h in
        let (none_before, (v, now)) = create-done w w1 raw g in
        record {
          raw = raw;
          new_version = v;
          marshalled = e;
          stored_now = rw (sym same) now;
          how = created empty none_before;
        }
    after_create-Saved (failed already_exists, w1) g empty h =
        overwrite-Saved w1 (get w1) refl empty (create-already_exists w w1 raw g) h
    after_create-Saved (failed not_found, w1) g empty h = cc
    after_create-Saved (failed conflict, w1) g empty h = cc
    after_create-Saved (failed unavailable, w1) g empty h = cc
    after_create-Saved (failed unparsable, w1) g empty h = cc
    after_create-Saved (failed unserializable, w1) g empty h = cc

    save_raw-Saved : save_raw c (some raw) version w ≡ (done tt, w') → Saved m version w w'
    save_raw-Saved h = elim (name_cases version "") [
      | inl empty ↦ after_create-Saved (create w raw) refl empty (ground (arith, eq_iff version ""))
      | inr named ↦
          let update_done : update w (record { raw = some raw; version = version })
              ≡ (done tt, w') =
            ground arith in
          let ((old, was, at), (v, now)) =
            update-done w w' (record { raw = some raw; version = version }) update_done
              (λ same. ground (arith, eq_iff version "")) in
          record {
            raw = raw;
            new_version = v;
            marshalled = e;
            stored_now = now;
            how = updated old was at;
          }
    ]

  pub save-Saved :
      (m : Policies) (version : String) (w w' : World) (text : Option String)
      → marshal m ≡ text
      → save_raw c text version w ≡ (done tt, w')
      → Saved m version w w'
  save-Saved m version w w' none e h = cc
  save-Saved m version w w' (some raw) e h = save_raw-Saved m raw version w w' e h

  -- What was saved is read back.
  pub contents-Saved :
      {m : Policies} {version : String} {w w' : World} (k : String)
      → Saved m version w w'
      → lookup k (contents (stored w')) ≡ lookup k m
  contents-Saved {m} {version} {w} {w'} k s =
      let (some_text, (m', back, same)) = unmarshal-marshal m s.raw s.marshalled in
      let now = s.stored_now in
      elim (name_cases s.raw "") [
        | inl empty ↦ absurd (some_text empty)
        | inr text ↦ rw (now, text, back) (same k)
      ]

  pub lookup-insert :
      (key k : String) (p : Policy) (m : Policies)
      → lookup k (insert key p m) ≡ (if str_eq key k then some p else lookup k m)
  unfolding insert lookup
  lookup-insert key k p [] = refl
  lookup-insert key k p ((j, q) ∷ m) =
      ground (arith, lookup-insert key k p m, eq_iff j key, eq_iff key k, eq_iff j k)

  pub lookup-erase :
      (key k : String) (m : Policies)
      → lookup k (erase key m) ≡ (if str_eq key k then none else lookup k m)
  unfolding erase lookup
  lookup-erase key k [] = ground arith
  lookup-erase key k ((j, q) ∷ m) =
      ground (arith, lookup-erase key k m, eq_iff j key, eq_iff key k, eq_iff j k)

  -- What a load that was answered shows of the store.
  pub record Loaded (m : Policies) (version : String) (w : World) : Type 0 where
    pub named : version ≢ "" → (cm : ConfigMap) × (stored w ≡ some cm) × (cm.version ≡ version)
    pub unnamed : version ≡ "" → stored w ≡ none
    pub same_contents : m ≡ contents (stored w)

  parsed-version :
      (cm : ConfigMap) (m : Policies) (version : String)
      → parsed c cm ≡ done (m, version)
      → (cm.version ≡ version) × (policies_of (parsed c cm) ≡ m)
  parsed-version cm m version h = (ground arith, ap policies_of h)

  pub loaded-Loaded :
      (w w1 : World) (answer : Outcome ConfigMap) (m : Policies) (version : String)
      → get w ≡ (answer, w1)
      → loaded c answer ≡ done (m, version)
      → Loaded m version w
  loaded-Loaded w w1 (done cm) m version g h =
      let (at, _) = get-done w w1 cm g in
      let (v, found) = parsed-version cm m version h in
      record {
        named = λ _. (cm, at, v);
        unnamed = λ empty. absurd (versioned w cm at (v ∙ empty));
        same_contents = rw at (sym found);
      }
  loaded-Loaded w w1 (failed not_found) m version g h =
      let (nothing, _) = get-not_found w w1 g in
      let empty : version ≡ "" = ground arith in
      record {
        named = λ some_version. absurd (some_version empty);
        unnamed = λ _. nothing;
        same_contents = rw nothing (ground arith);
      }
  loaded-Loaded w w1 (failed already_exists) m version g h = cc
  loaded-Loaded w w1 (failed conflict) m version g h = cc
  loaded-Loaded w w1 (failed unavailable) m version g h = cc
  loaded-Loaded w w1 (failed unparsable) m version g h = cc
  loaded-Loaded w w1 (failed unserializable) m version g h = cc
