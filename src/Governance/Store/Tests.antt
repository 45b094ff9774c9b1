-- ===== src/Governance/Store/Tests.antt =====
-- The theorems on the store at concrete inputs.
use agenttier.Prelude.{
  String, Bool, true, ◌&&◌, Option, none, some, List, [], ◌∷◌, ◌≡◌, ◌≢◌, refl, sym, ap, arith,
  str_eq, eq_iff, if◌then◌else◌, is_empty, inl, inr, Bool-cases,
}
use agenttier.Prelude.Int.{ℤ, pos, is_zero_ℤ}
use agenttier.Webhook.Subscription.{lookup}
use agenttier.Governance.Policy.{Policy, empty_policy, is_empty_policy}
use agenttier.Governance.Store.{
  Policies, ConfigMap, Outcome, done, failed, not_found, already_exists, conflict, Client,
  scope_key, insert, load, save, set_policy,
}
use agenttier.Governance.Store.Saves.{Serves, contents}
use agenttier.Governance.Store.Updates.{set_policy_lem}

-- A store of one ConfigMap, whose only version is "v", and the JSON of the one map that has an empty
-- policy for the cluster.
abbrev stored_map : Option (Option String) → Option ConfigMap
stored_map none = none
stored_map (some raw) = some (record { raw = raw; version = "v" })

abbrev get_map : Option (Option String) → Outcome ConfigMap × Option (Option String)
get_map none = (failed not_found, none)
get_map (some raw) = (done (record { raw = raw; version = "v" }), some raw)

abbrev create_map : Option (Option String) → String → Outcome (Unit {0}) × Option (Option String)
create_map none raw = (done tt, some (some raw))
create_map (some old) raw = (failed already_exists, some old)

abbrev update_map : Option (Option String) → ConfigMap → Outcome (Unit {0}) × Option (Option String)
update_map none cm = (failed not_found, none)
update_map (some old) cm =
    if str_eq "v" cm.version then (done tt, some cm.raw) else (failed conflict, some old)

abbrev is_cluster_default : String → Policy → Bool
is_cluster_default key p =
    str_eq key "__cluster__" && (str_eq p.description "" && is_empty_policy p)

abbrev write_map : Policies → Option String
write_map ((key, p) ∷ []) = if is_cluster_default key p then some "{}" else none
write_map _ = none

abbrev read_map : String → Option Policies
read_map raw = if str_eq raw "{}" then some (("__cluster__", empty_policy) ∷ []) else none

abbrev map_store : Client
map_store = record {
  World = Option (Option String);
  get = get_map;
  create = create_map;
  update = update_map;
  marshal = write_map;
  unmarshal = read_map;
}

zero_int : (a : ℤ) → is_zero_ℤ a ≡ true → a ≡ pos 0
zero_int a h = ground arith

empty_list : (l : List String) → is_empty l ≡ true → l ≡ []
empty_list [] h = refl
empty_list (x ∷ l) h = cc

empty_text : (s : String) → str_eq s "" ≡ true → s ≡ ""
empty_text s h = (eq_iff s "").0 h

cluster_default :
    (p : Policy) → (str_eq p.description "" && is_empty_policy p) ≡ true → p ≡ empty_policy
unfolding is_empty_policy
cluster_default p h = λ i. record {
  max_sandboxes_per_user = zero_int p.max_sandboxes_per_user (ground arith) i;
  max_sandboxes_total = zero_int p.max_sandboxes_total (ground arith) i;
  max_cpu = empty_text p.max_cpu (ground arith) i;
  max_memory = empty_text p.max_memory (ground arith) i;
  max_storage = empty_text p.max_storage (ground arith) i;
  max_timeout = empty_text p.max_timeout (ground arith) i;
  max_idle_timeout = empty_text p.max_idle_timeout (ground arith) i;
  allowed_templates = empty_list p.allowed_templates (ground arith) i;
  approved_registries = empty_list p.approved_registries (ground arith) i;
  max_agent_sandboxes = zero_int p.max_agent_sandboxes (ground arith) i;
  allowed_agent_images = empty_list p.allowed_agent_images (ground arith) i;
  max_concurrent_invokes_per_sandbox =
      zero_int p.max_concurrent_invokes_per_sandbox (ground arith) i;
  description = empty_text p.description (ground arith) i;
}

read_map-write_map :
    (m : Policies) (raw : String)
    → write_map m ≡ some raw
    → (raw ≢ "")
      × ((m' : Policies) × (read_map raw ≡ some m') × ((k : String) → lookup k m' ≡ lookup k m))
read_map-write_map [] raw h = cc
read_map-write_map ((key, p) ∷ []) raw h = elim (Bool-cases (is_cluster_default key p)) [
  | inl yes_it ↦
      let text : "{}" ≡ raw = ground arith in
      let the_key : key ≡ "__cluster__" = ground (arith, eq_iff key "__cluster__") in
      let the_policy = cluster_default p (ground arith) in
      rw (sym text) (
        (λ e. ground (arith, eq_iff "{}" "")),
        ((("__cluster__", empty_policy) ∷ []), refl, λ k. rw (the_key, the_policy) refl),
      )
  | inr other ↦ absurd (ground arith)
]
read_map-write_map ((key, p) ∷ q ∷ m) raw h = cc

versioned_map :
    (w : Option (Option String)) (cm : ConfigMap) → stored_map w ≡ some cm → cm.version ≢ ""
versioned_map none cm h = cc
versioned_map (some raw) cm h = λ e. ground (arith, eq_iff "v" "")

get_map-done :
    (w w' : Option (Option String)) (cm : ConfigMap)
    → get_map w ≡ (done cm, w')
    → (stored_map w ≡ some cm) × (stored_map w' ≡ some cm)
get_map-done none w' cm h = cc
get_map-done (some raw) w' cm h =
    let same : some raw ≡ w' = ground arith in
    let its : record { raw = raw; version = "v" } ≡ cm = ground arith in
    (ap some its, rw (sym same) (ap some its))

get_map-not_found :
    (w w' : Option (Option String))
    → get_map w ≡ (failed not_found, w')
    → (stored_map w ≡ none) × (stored_map w' ≡ none)
get_map-not_found none w' h = let same : none ≡ w' = ground arith in (refl, rw (sym same) refl)
get_map-not_found (some raw) w' h = cc

create_map-done :
    (w w' : Option (Option String)) (raw : String)
    → create_map w raw ≡ (done tt, w')
    → (stored_map w ≡ none)
      × ((v : String) × (stored_map w' ≡ some (record { raw = some raw; version = v })))
create_map-done none w' raw h =
    let same : some (some raw) ≡ w' = ground arith in (refl, ("v", rw (sym same) refl))
create_map-done (some old) w' raw h = cc

create_map-already_exists :
    (w w' : Option (Option String)) (raw : String)
    → create_map w raw ≡ (failed already_exists, w')
    → (cm : ConfigMap) × (stored_map w ≡ some cm)
create_map-already_exists none w' raw h = cc
create_map-already_exists (some old) w' raw h = (record { raw = old; version = "v" }, refl)

update_map-done :
    (w w' : Option (Option String)) (cm : ConfigMap)
    → update_map w cm ≡ (done tt, w')
    → cm.version ≢ ""
    → ((old : ConfigMap) × (stored_map w ≡ some old) × (old.version ≡ cm.version))
      × ((v : String) × (stored_map w' ≡ some (record { raw = cm.raw; version = v })))
update_map-done none w' cm h named = cc
update_map-done (some old) w' cm h named = elim (Bool-cases (str_eq "v" cm.version)) [
  | inl same ↦
      let after : some cm.raw ≡ w' = ground arith in
      (
        (record { raw = old; version = "v" }, refl, (eq_iff "v" cm.version).0 same),
        ("v", rw (sym after) refl),
      )
  | inr other ↦ absurd (ground arith)
]

abbrev map_store-Serves : Serves map_store
map_store-Serves = record {
  stored = stored_map;
  versioned = versioned_map;
  get-done = get_map-done;
  get-not_found = get_map-not_found;
  create-done = create_map-done;
  create-already_exists = create_map-already_exists;
  update-done = update_map-done;
  unmarshal-marshal = read_map-write_map;
}

set_policy_lem_example :
    lookup "__cluster__" (contents map_store map_store-Serves (stored_map (some (some "{}"))))
    ≡ (if str_eq (scope_key "") "__cluster__" then some empty_policy else none)
unfolding lookup set_policy load save insert is_empty_policy
set_policy_lem_example =
    set_policy_lem map_store map_store-Serves (λ w. w) none (some (some "{}")) "" "__cluster__"
      empty_policy refl (λ a b h. cc) (λ h. h)
