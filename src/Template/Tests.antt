-- ===== src/Template/Tests.antt =====
-- The theorems on templates at concrete inputs.
use agenttier.Prelude.{
  ℕ, String, none, some, List, [], ◌∷◌, ◌≡◌, ◌≤◌, ◌↔◌, if◌then◌else◌, str_eq, length,
}
use agenttier.Template.Spec.{Parts, TemplateReference, TemplateSpec, EnvVar, merge_onto}
use agenttier.Template.Spec.Nearest.{MergesChain, merge_onto-MergesChain}
use agenttier.Template.Chain.{
  ok, found, missing, Fetched, ResolvedEntry, Templates, entry_of, resolve_chain,
  max_inheritance_depth,
}
use agenttier.Template.Chain.Lineage.{Fresh, Lineage, resolve_chain-Lineage}

-- The parts that are passed on, as numbers.
abbrev numbers : Parts
numbers = record {
  PullPolicy = ℕ;
  Resources = ℕ;
  StorageSettings = ℕ;
  Network = ℕ;
  ContainerSettings = ℕ;
  Credential = ℕ;
  FileBody = ℕ;
  ValueSource = ℕ;
  Tool = ℕ;
  Skill = ℕ;
  Prompt = ℕ;
  Hooks = ℕ;
  Constraints = ℕ;
}

abbrev setting : String → String → EnvVar numbers
setting name value = record { name = name; value = value; value_from = none }

abbrev base : TemplateSpec numbers
base = record {
  inherits_from = none;
  mode = "code";
  description = "base";
  image = none;
  resources = some 1;
  storage = none;
  network = none;
  env = setting "LANG" "C" ∷ setting "DEBUG" "0" ∷ [];
  timeout = none;
  idle_timeout = none;
  runtime_class = none;
  harness = none;
  init_scripts = "apt update" ∷ [];
  files = [];
  credentials = [];
  sidecars = [];
  init_containers = [];
  security = none;
  service_account = "builder";
}

abbrev base_reference : TemplateReference
base_reference = record { kind = "ClusterSandboxTemplate"; namespace = ""; name = "base" }

abbrev python : TemplateSpec numbers
python = record base {
  inherits_from = some base_reference;
  description = "";
  resources = some 2;
  env = setting "DEBUG" "1" ∷ [];
  service_account = "runner";
}

abbrev python_reference : TemplateReference
python_reference = record { kind = ""; namespace = ""; name = "python" }

abbrev python_fetched : Fetched numbers
python_fetched = record { spec = python; resource_version = "7" }

abbrev base_fetched : Fetched numbers
base_fetched = record { spec = base; resource_version = "3" }

abbrev templates : Templates numbers
templates = record {
  namespaced = λ ns name. if str_eq name "python" then found python_fetched else missing;
  cluster_wide = λ name. if str_eq name "base" then found base_fetched else missing;
}

abbrev python_chain : List (ResolvedEntry numbers)
python_chain =
    entry_of numbers base_reference base_fetched
    ∷ entry_of numbers python_reference python_fetched
    ∷ []

resolve_chain-Lineage_example :
    (resolve_chain numbers templates "team" max_inheritance_depth python_reference []
      ≡ ok python_chain)
    ↔ ((keys : List String) × Lineage numbers templates "team" python_reference python_chain keys
        × (length python_chain ≤ 10)
        × Fresh [] keys)
resolve_chain-Lineage_example =
    resolve_chain-Lineage numbers templates "team" python_reference python_chain

merge_onto-MergesChain_example :
    MergesChain numbers base (python ∷ []) (merge_onto numbers base (python ∷ []))
merge_onto-MergesChain_example = merge_onto-MergesChain numbers base (python ∷ [])
