-- ===== src/Governance/Store/Updates.antt =====
-- What a write of one scope's policy does to the ConfigMap, with other writers between its load and
-- its save.
use agenttier.Prelude.{
  String, Option, none, some, [], if◌then◌else◌, str_eq, ◌≡◌, refl, sym, ap, ◌∙◌, inl, inr, arith,
  eq_iff, name_cases,
}
use agenttier.Governance.Policy.{Policy}
use agenttier.Webhook.Subscription.{lookup}
use agenttier.Governance.Store.{
  Policies, ConfigMap, Outcome, done, failed, Client, scope_key, insert, erase, policy_at, load,
  loaded, save, get_policy, got, set_policy, save_edited, delete_policy,
}
use agenttier.Governance.Store.Saves.{
  Serves, contents, How, created, raced, updated, Saved, Loaded, save-Saved, contents-Saved,
  lookup-insert, lookup-erase, loaded-Loaded,
}

module _ (c : Client) (laws : Serves c) where
  open c use {World, get, marshal}
  open laws use {stored}

  -- Other writers do not bring a version back with other policies.
  abbrev pub Kept : Option ConfigMap → Option ConfigMap → Type 0
  Kept before after =
      (a b : ConfigMap) → before ≡ some a → after ≡ some b → a.version ≡ b.version → a ≡ b

  -- What is saved, by the edit of what the store holds when it is written.
  How-contents :
      (m : Policies) (version : String) (before now : Option ConfigMap) (w : World)
      → before ≡ stored w
      → Loaded c laws m version w
      → Kept before now
      → (before ≡ none → now ≡ none)
      → How c laws version now
      → m ≡ contents c laws now
  How-contents m version before now w b l kept quiet (created empty nothing) =
      l.same_contents ∙ rw (l.unnamed empty, nothing) refl
  How-contents m version before now w b l kept quiet (raced empty cm there) =
      let gone = quiet (b ∙ l.unnamed empty) in cc
  How-contents m version before now w b l kept quiet (updated cm there v) =
      elim (name_cases version "") [
        | inl empty ↦ let gone = quiet (b ∙ l.unnamed empty) in cc
        | inr some_version ↦
            let (first, at, v') = l.named (λ empty. ground (arith, eq_iff version "")) in
            let same = kept first cm (b ∙ at) there (v' ∙ sym v) in
            l.same_contents ∙ rw (at, there) (ap (λ x. contents c laws (some x)) same)
      ]

  module _ (edit : Policies → Policies) (others : World → World) (w w' : World) where
    edited_with :
        (answer : Outcome ConfigMap) (w1 : World) (r : Outcome (Policies × String))
        → get w ≡ (answer, w1)
        → loaded c answer ≡ r
        → save_edited c edit others (r, w1) ≡ (done tt, w')
        → (m : Policies) × (version : String) × Loaded c laws m version w
          × Saved c laws (edit m) version (others w1) w'
    unfolding save
    edited_with answer w1 (done (m, version)) g l h = (
      m,
      version,
      loaded-Loaded c laws w w1 answer m version g l,
      save-Saved c laws (edit m) version (others w1) w' (marshal (edit m)) refl h,
    )
    edited_with answer w1 (failed e) g l h = cc

    -- A successful edit, where no writer created the ConfigMap between the load and the save.
    edited_quiet :
        (key k : String) (new : Option Policy)
        → ((m : Policies) → lookup k (edit m) ≡ (if str_eq key k then new else lookup k m))
        → save_edited c edit others (load c w) ≡ (done tt, w')
        → Kept (stored w) (stored (others (load c w).1))
        → (stored w ≡ none → stored (others (load c w).1) ≡ none)
        → lookup k (contents c laws (stored w')) ≡ (
            if str_eq key k then new else lookup k (contents c laws (stored (others (load c w).1))))
    unfolding load
    edited_quiet key k new effect h kept quiet =
        let (m, version, l, s) = edited_with (get w).0 (get w).1 (loaded c (get w).0) refl refl h in
        let same =
          How-contents m version (stored w) (stored (others (get w).1)) w refl l kept quiet s.how in
        contents-Saved c laws k s
        ∙ effect m
        ∙ ap (λ (x : Policies). if str_eq key k then new else lookup k x) same

    -- A successful edit of a store that had no ConfigMap at the load.
    edited_race :
        (key k : String) (new : Option Policy)
        → ((m : Policies) → lookup k (edit m) ≡ (if str_eq key k then new else lookup k m))
        → save_edited c edit others (load c w) ≡ (done tt, w')
        → stored w ≡ none
        → lookup k (contents c laws (stored w')) ≡ (if str_eq key k then new else none)
    unfolding load lookup
    edited_race key k new effect h nothing =
        let (m, version, l, s) = edited_with (get w).0 (get w).1 (loaded c (get w).0) refl refl h in
        let empty : m ≡ [] = l.same_contents ∙ rw nothing refl in
        contents-Saved c laws k s ∙ effect m ∙ rw empty refl

    -- After any successful edit its own key is as it left it.
    edited_self :
        (key : String) (new : Option Policy)
        → ((m : Policies) → lookup key (edit m) ≡ new)
        → save_edited c edit others (load c w) ≡ (done tt, w')
        → lookup key (contents c laws (stored w')) ≡ new
    unfolding load
    edited_self key new effect h =
        let (m, version, l, s) = edited_with (get w).0 (get w).1 (loaded c (get w).0) refl refl h in
        contents-Saved c laws key s ∙ effect m

  got-loaded :
      (scope : String) (q : Policy) (w w1 w2 : World) (answer : Outcome ConfigMap)
      (r : Outcome (Policies × String))
      → get w ≡ (answer, w1)
      → loaded c answer ≡ r
      → got c scope (r, w1) ≡ (done q, w2)
      → q ≡ policy_at (scope_key scope) (contents c laws (stored w))
  got-loaded scope q w w1 w2 answer (done (m, version)) g l h =
      let shown = loaded-Loaded c laws w w1 answer m version g l in
      let found : policy_at (scope_key scope) m ≡ q = ground arith in
      sym found ∙ ap (policy_at (scope_key scope)) shown.same_contents
  got-loaded scope q w w1 w2 answer (failed e) g l h = cc

-- A set that succeeds, where other writers bring no version back with other policies and the ConfigMap
-- was not created between the load and the save, acts on the policies that are stored at the moment
-- of the save, whatever other writers did since the load: the scope has the new policy, and every
-- other scope what it had at that moment.
pub set_policy_lem :
    (c : Client) (laws : Serves c) (others : c.World → c.World) (w w' : c.World) (scope k : String)
    (p : Policy)
    → set_policy c scope p others w ≡ (done tt, w')
    → Kept c laws (laws.stored w) (laws.stored (others (load c w).1))
    → (laws.stored w ≡ none → laws.stored (others (load c w).1) ≡ none)
    → lookup k (contents c laws (laws.stored w')) ≡ (
        if str_eq (scope_key scope) k
        then some p
        else lookup k (contents c laws (laws.stored (others (load c w).1))))
unfolding set_policy
set_policy_lem c laws others w w' scope k p h kept quiet =
    edited_quiet c laws (insert (scope_key scope) p) others w w' (scope_key scope) k (some p)
      (lookup-insert c laws (scope_key scope) k p) h kept quiet

-- A delete that succeeds, under the same conditions, takes away the scope's policy and leaves every
-- other scope what it had at the moment of the save.
pub delete_policy_lem :
    (c : Client) (laws : Serves c) (others : c.World → c.World) (w w' : c.World) (scope k : String)
    → delete_policy c scope others w ≡ (done tt, w')
    → Kept c laws (laws.stored w) (laws.stored (others (load c w).1))
    → (laws.stored w ≡ none → laws.stored (others (load c w).1) ≡ none)
    → lookup k (contents c laws (laws.stored w')) ≡ (
        if str_eq (scope_key scope) k
        then none
        else lookup k (contents c laws (laws.stored (others (load c w).1))))
unfolding delete_policy
delete_policy_lem c laws others w w' scope k h kept quiet =
    edited_quiet c laws (erase (scope_key scope)) others w w' (scope_key scope) k none
      (lookup-erase c laws (scope_key scope) k) h kept quiet

-- After a set that succeeds, a read of the scope that succeeds gives the policy that was set, whatever
-- other writers did between the load and the save.
pub get_policy-set_policy :
    (c : Client) (laws : Serves c) (others : c.World → c.World) (w w' w'' : c.World)
    (scope : String) (p q : Policy)
    → set_policy c scope p others w ≡ (done tt, w')
    → get_policy c scope w' ≡ (done q, w'')
    → q ≡ p
unfolding set_policy get_policy load policy_at
get_policy-set_policy c laws others w w' w'' scope p q h g =
    let effect : (m : Policies) → lookup (scope_key scope) (insert (scope_key scope) p m) ≡ some p =
      λ m.
        lookup-insert c laws (scope_key scope) (scope_key scope) p m
        ∙ ground (arith, eq_iff (scope_key scope) (scope_key scope)) in
    let now =
      edited_self c laws (insert (scope_key scope) p) others w w' (scope_key scope) (some p) effect
        h in
    got-loaded c laws scope q w' (c.get w').1 w'' (c.get w').0 (loaded c (c.get w').0) refl refl g
    ∙ rw (policy_at, now) refl

-- The writer that finds no ConfigMap loses what another one creates meanwhile: after its write has
-- succeeded, no scope but its own has a policy, whatever the other writer had stored.
pub set_policy_race :
    (c : Client) (laws : Serves c) (others : c.World → c.World) (w w' : c.World) (scope k : String)
    (p : Policy)
    → laws.stored w ≡ none
    → set_policy c scope p others w ≡ (done tt, w')
    → lookup k (contents c laws (laws.stored w'))
      ≡ (if str_eq (scope_key scope) k then some p else none)
unfolding set_policy
set_policy_race c laws others w w' scope k p nothing h =
    edited_race c laws (insert (scope_key scope) p) others w w' (scope_key scope) k (some p)
      (lookup-insert c laws (scope_key scope) k p) h nothing
