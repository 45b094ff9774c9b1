-- ===== src/Governance/Store.antt =====
-- pkg/governance/policy.go, ConfigMapStore: the policies of all scopes in one ConfigMap. The client of
-- the Kubernetes API and encoding/json are interfaces; the laws that the client's documentation
-- gives are named in Store/Saves.
pub mod Saves
pub mod Updates
mod Tests
use agenttier.Prelude.{
  String, Bool, true, false, not, ◌&&◌, Option, none, some, List, [], ◌∷◌, ◌++◌, if◌then◌else◌,
  str_eq,
}
use agenttier.Governance.Policy.{Policy, empty_policy}
use agenttier.Webhook.Subscription.{lookup}

abbrev pub Policies : Type 0
Policies = List (String × Policy)

-- The key "policies" of the ConfigMap's data, if it is there, and the resource version.
pub record ConfigMap : Type 0 where
  pub raw : Option String
  pub version : String

pub data StoreError : Type 0 where
  not_found : StoreError
  already_exists : StoreError
  conflict : StoreError
  unavailable : StoreError
  unparsable : StoreError
  unserializable : StoreError

pub data Outcome {ℓ} (A : Type ℓ) : Type ℓ where
  done : A → Outcome A
  failed : StoreError → Outcome A

-- The client's calls on the one ConfigMap, and `json.Marshal` and `json.Unmarshal` of the map.
pub record Client : Type 1 where
  pub World : Type 0
  pub get : World → Outcome ConfigMap × World
  pub create : World → String → Outcome (Unit {0}) × World
  pub update : World → ConfigMap → Outcome (Unit {0}) × World
  pub marshal : Policies → Option String
  pub unmarshal : String → Option Policies

abbrev pub cluster_policy_key : String
cluster_policy_key = "__cluster__"

abbrev pub scope_key : String → String
scope_key scope = if str_eq scope "" then cluster_policy_key else scope

-- `policies[key] = policy` and `delete(policies, key)`
unfoldable pub insert : String → Policy → Policies → Policies
insert key policy [] = (key, policy) ∷ []
insert key policy ((k, p) ∷ m) =
    let rest = insert key policy m in if str_eq k key then (key, policy) ∷ m else (k, p) ∷ rest

unfoldable pub erase : String → Policies → Policies
erase key [] = []
erase key ((k, p) ∷ m) = let rest = erase key m in if str_eq k key then rest else (k, p) ∷ rest

-- `policies[key]`, the zero value where the key is missing.
unfoldable pub policy_at : String → Policies → Policy
unfolding lookup
policy_at key m = elim (lookup key m) [ none ↦ empty_policy | some p ↦ p ]

module _ (c : Client) where
  open c use {World, get, create, update, marshal, unmarshal}

  abbrev pub parsed_or : Option Policies → String → Outcome (Policies × String)
  parsed_or none version = failed unparsable
  parsed_or (some m) version = done (m, version)

  -- The policies in a ConfigMap, none where the key is missing or empty, and its version.
  abbrev pub parsed : ConfigMap → Outcome (Policies × String)
  parsed cm = elim cm.raw [
    | none ↦ done ([], cm.version)
    | some raw ↦
        if str_eq raw "" then done ([], cm.version) else parsed_or (unmarshal raw) cm.version
  ]

  abbrev pub loaded : Outcome ConfigMap → Outcome (Policies × String)
  loaded (done cm) = parsed cm
  loaded (failed not_found) = done ([], "")
  loaded (failed e) = failed e

  unfoldable pub load : World → Outcome (Policies × String) × World
  load w = let (answer, w') = get w in (loaded answer, w')

  -- The ConfigMap was created by another writer meanwhile: it is read again and written over.
  abbrev pub overwrite : String → Outcome ConfigMap × World → Outcome (Unit {0}) × World
  overwrite raw (done cm, w) = update w (record cm { raw = some raw })
  overwrite raw (failed e, w) = (failed e, w)

  abbrev pub after_create : String → Outcome (Unit {0}) × World → Outcome (Unit {0}) × World
  after_create raw (done _, w) = (done tt, w)
  after_create raw (failed already_exists, w) = overwrite raw (get w)
  after_create raw (failed e, w) = (failed e, w)

  abbrev pub save_raw : Option String → String → World → Outcome (Unit {0}) × World
  save_raw none version w = (failed unserializable, w)
  save_raw (some raw) version w =
      if str_eq version ""
      then after_create raw (create w raw)
      else update w (record { raw = some raw; version = version })

  unfoldable pub save : Policies → String → World → Outcome (Unit {0}) × World
  save m version w = save_raw (marshal m) version w

  abbrev pub got : String → Outcome (Policies × String) × World → Outcome Policy × World
  got scope (done (m, _), w) = (done (policy_at (scope_key scope) m), w)
  got scope (failed e, w) = (failed e, w)

  unfoldable pub get_policy : String → World → Outcome Policy × World
  get_policy scope w = got scope (load w)

  -- An edit of what was loaded is saved; `others` is what other writers do between the two.
  abbrev pub save_edited :
      (Policies → Policies)
      → (World → World)
      → Outcome (Policies × String) × World
      → Outcome (Unit {0}) × World
  save_edited edit others (done (m, version), w) = save (edit m) version (others w)
  save_edited edit others (failed e, w) = (failed e, w)

  unfoldable pub set_policy : String → Policy → (World → World) → World → Outcome (Unit {0}) × World
  set_policy scope policy others w = save_edited (insert (scope_key scope) policy) others (load w)

  unfoldable pub delete_policy : String → (World → World) → World → Outcome (Unit {0}) × World
  delete_policy scope others w = save_edited (erase (scope_key scope)) others (load w)

  abbrev pub cluster_first : Option Policy → Policies → Policies
  cluster_first none m = erase cluster_policy_key m
  cluster_first (some p) m = ("", p) ∷ erase cluster_policy_key m

  abbrev pub listed_policies : Outcome (Policies × String) × World → Outcome Policies × World
  listed_policies (done (m, _), w) = (done (cluster_first (lookup cluster_policy_key m) m), w)
  listed_policies (failed e, w) = (failed e, w)

  -- Every scope's policy, the cluster's first under the scope "".
  unfoldable pub list_policies : World → Outcome Policies × World
  list_policies w = listed_policies (load w)
