-- ===== src/Webhook/State/Roundtrip.antt =====
-- A cursor that is saved, beside the histories in the one stored state of
-- pkg/controller/webhook_delivery/state.go, with other writers between the load and the save.
use agenttier.Prelude.{
  String, Option, none, some, ◌≡◌, refl, sym, ap, ◌∙◌, inl, inr, arith, eq_iff, name_cases,
}
use agenttier.Governance.Store.{Outcome, done, failed}
use agenttier.Webhook.Events.{CursorState}
use agenttier.Webhook.State.{SubscriptionState, PersistedState, history_of, or_fresh}
use agenttier.Webhook.State.Store.{
  ConfigMap, Client, with_cursor, loaded, load, save, save_loaded, save_cursor_state, cursor_of,
  load_cursor_state,
}
use agenttier.Webhook.State.Saves.{
  Serves, contents, How, created, raced, updated, Saved, Loaded, save-Saved, contents-Saved,
  loaded-Loaded,
}

module _ (c : Client) (laws : Serves c) where
  open c use {World, Raw, get, marshal}
  open laws use {stored}

  -- Other writers do not bring a version back with another state.
  abbrev pub Kept : Option (ConfigMap Raw) → Option (ConfigMap Raw) → Type 0
  Kept before now =
      (a b : ConfigMap Raw) → before ≡ some a → now ≡ some b → a.version ≡ b.version → a ≡ b

  -- What is saved comes of what the store holds when it is written.
  How-contents :
      (s : PersistedState) (version : String) (now : Option (ConfigMap Raw)) (w : World)
      → Loaded c laws s version w
      → Kept (stored w) now
      → (stored w ≡ none → now ≡ none)
      → How c laws version now
      → s ≡ contents c laws now
  How-contents s version now w l kept quiet (created empty nothing) =
      l.same_contents ∙ rw (l.unnamed empty, nothing) refl
  How-contents s version now w l kept quiet (raced empty cm there) =
      let gone = quiet (l.unnamed empty) in cc
  How-contents s version now w l kept quiet (updated cm there v) = elim (name_cases version "") [
    | inl empty ↦ let gone = quiet (l.unnamed empty) in cc
    | inr some_version ↦
        let (first, at, v') = l.named (λ empty. ground (arith, eq_iff version "")) in
        let same = kept first cm at there (v' ∙ sym v) in
        l.same_contents ∙ rw (at, there) (ap (λ x. contents c laws (some x)) same)
  ]

  write_through :
      (next : CursorState) (others : World → World) (w w1 w' : World)
      (answer : Outcome (ConfigMap Raw)) (r : Outcome (PersistedState × String))
      → get w ≡ (answer, w1)
      → loaded c answer ≡ r
      → save_loaded c next others (r, w1) ≡ (done tt, w')
      → (s : PersistedState) × (version : String) × Loaded c laws s version w
        × Saved c laws (with_cursor next s) version (others w1) w'
  unfolding save
  write_through next others w w1 w' answer (done (s, version)) g l h = (
    s,
    version,
    loaded-Loaded c laws w w1 answer s version g l,
    save-Saved c laws (with_cursor next s) version (others w1) w' (marshal (with_cursor next s))
        refl h,
  )
  write_through next others w w1 w' answer (failed e) g l h = cc

  cursor_of-loaded :
      (s : CursorState) (w w1 w2 : World) (answer : Outcome (ConfigMap Raw))
      (r : Outcome (PersistedState × String))
      → get w ≡ (answer, w1)
      → loaded c answer ≡ r
      → cursor_of c (r, w1) ≡ (done s, w2)
      → s ≡ (contents c laws (stored w)).cursor
  cursor_of-loaded s w w1 w2 answer (done (state, version)) g l h =
      let shown = loaded-Loaded c laws w w1 answer state version g l in
      let found : state.cursor ≡ s = ground arith in
      sym found ∙ ap (λ (x : PersistedState). x.cursor) shown.same_contents
  cursor_of-loaded s w w1 w2 answer (failed e) g l h = cc

-- After SaveCursorState has succeeded, be it that the ConfigMap was not there, was there, or was created
-- by another writer in between, a LoadCursorState that succeeds gives the cursor that was saved,
-- whatever other writers did between the load and the save. And where they brought no version back
-- with another state, and did not create the ConfigMap in between, each subscription has the history
-- that was stored at the moment of the save, their changes included.
pub load_cursor_state-save_cursor_state :
    (c : Client) (laws : Serves c) (others : c.World → c.World) (w w' w'' : c.World)
    (next s : CursorState)
    → save_cursor_state c next others w ≡ (done tt, w')
    → load_cursor_state c w' ≡ (done s, w'')
    → (s ≡ next)
      × (Kept c laws (laws.stored w) (laws.stored (others (load c w).1))
          → (laws.stored w ≡ none → laws.stored (others (load c w).1) ≡ none)
          → (id : String)
          → history_of (contents c laws (laws.stored w')) id
            ≡ history_of (contents c laws (laws.stored (others (load c w).1))) id)
unfolding save_cursor_state load_cursor_state load history_of
load_cursor_state-save_cursor_state c laws others w w' w'' next s h g =
    let (was, version, l, saved) =
      write_through c laws next others w (c.get w).1 w' (c.get w).0 (loaded c (c.get w).0) refl refl
        h in
    let (cursor, subs) = contents-Saved c laws saved in
    (
      cursor_of-loaded c laws s w' (c.get w').1 w'' (c.get w').0 (loaded c (c.get w').0) refl refl g
          ∙ cursor,
      λ kept quiet id.
          let same =
            How-contents c laws was version (laws.stored (others (c.get w).1)) w l kept quiet
              saved.how in
          ap (λ (x : Option SubscriptionState). (or_fresh x).history)
            (subs id ∙ ap (λ (x : PersistedState). x.subscriptions id) same),
    )
