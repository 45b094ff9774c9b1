-- ===== src/Template/Spec.antt =====
-- The specs of api/v1alpha1/sandboxtemplate_types.go as template_resolver.go reads them, and the merge
-- of a child's over its parent's.
pub mod Nearest
use agenttier.Prelude.{
  ℕ, String, Bool, Option, none, some, List, [], ◌∷◌, ◌++◌, if◌then◌else◌, str_eq, is_empty,
}
use agenttier.Prelude.Int.{ℤ}
use agenttier.Template.Keyed.{merge_keyed}

-- The structs that the resolver only passes on: those of Kubernetes, and parts of specs.
pub record Parts : Type 1 where
  pub PullPolicy : Type 0
  pub Resources : Type 0
  pub StorageSettings : Type 0
  pub Network : Type 0
  pub ContainerSettings : Type 0
  pub Credential : Type 0
  pub FileBody : Type 0
  pub ValueSource : Type 0
  pub Tool : Type 0
  pub Skill : Type 0
  pub Prompt : Type 0
  pub Hooks : Type 0
  pub Constraints : Type 0

pub record TemplateReference : Type 0 where
  pub kind : String
  pub namespace : String
  pub name : String

-- A pointer that overrides where it is not nil.
abbrev pub override {ℓ} : {A : Type ℓ} → Option A → Option A → Option A
override parent (some own) = some own
override parent none = parent

-- A text and a list override where they are not empty.
abbrev pub override_text : String → String → String
override_text parent child = if str_eq child "" then parent else child

abbrev pub override_list {ℓ} : {A : Type ℓ} → List A → List A → List A
override_list parent child = if is_empty child then parent else child

module _ (P : Parts) where
  open P use {
    PullPolicy, Resources, StorageSettings, Network, ContainerSettings, Credential, FileBody,
    ValueSource, Tool, Skill, Prompt, Hooks, Constraints,
  }

  pub record ImageSpec : Type 0 where
    pub repository : String
    pub pull_policy : PullPolicy
    pub pull_secret : String

  pub record StorageSpec : Type 0 where
    pub mount_path : String
    pub settings : StorageSettings

  pub record SecuritySpec : Type 0 where
    pub privileged : Bool

  pub record EnvVar : Type 0 where
    pub name : String
    pub value : String
    pub value_from : Option ValueSource

  pub record FileSpec : Type 0 where
    pub path : String
    pub body : FileBody

  -- A container: what the resolver sets of one, and the rest, `none` for zero values.
  pub record Container : Type 0 where
    pub name : String
    pub image : String
    pub env : List EnvVar
    pub volume_mounts : List (String × String)
    pub requests : List (String × String)
    pub limits : List (String × String)
    pub settings : Option ContainerSettings

  pub record AgentSpec : Type 0 where
    pub entrypoint : List String
    pub install_command : List String
    pub working_dir : String
    pub env : List EnvVar
    pub max_concurrent_invokes : Option ℤ
    pub default_invoke_timeout : Option ℤ

  pub record HarnessSpec : Type 0 where
    pub command : List String
    pub args : List String
    pub working_dir : String
    pub shell : String
    pub tools : List Tool
    pub system_prompt : Option Prompt
    pub skills : List Skill
    pub hooks : Option Hooks
    pub constraints : Option Constraints
    pub agent : Option AgentSpec
    pub use_http_exec : Option Bool

  pub record TemplateSpec : Type 0 where
    pub inherits_from : Option TemplateReference
    pub mode : String
    pub description : String
    pub image : Option ImageSpec
    pub resources : Option Resources
    pub storage : Option StorageSpec
    pub network : Option Network
    pub env : List EnvVar
    pub timeout : Option ℤ
    pub idle_timeout : Option ℤ
    pub runtime_class : Option String
    pub harness : Option HarnessSpec
    pub init_scripts : List String
    pub files : List FileSpec
    pub credentials : List Credential
    pub sidecars : List Container
    pub init_containers : List Container
    pub security : Option SecuritySpec
    pub service_account : String

  abbrev pub merge_env_vars : List EnvVar → List EnvVar → List EnvVar
  merge_env_vars = merge_keyed (λ (e : EnvVar). e.name)

  abbrev pub merge_files : List FileSpec → List FileSpec → List FileSpec
  merge_files = merge_keyed (λ (f : FileSpec). f.path)

  unfoldable pub merge_agent : AgentSpec → AgentSpec → AgentSpec
  merge_agent parent child = record parent {
    entrypoint = override_list parent.entrypoint child.entrypoint;
    install_command = override_list parent.install_command child.install_command;
    working_dir = override_text parent.working_dir child.working_dir;
    max_concurrent_invokes = override parent.max_concurrent_invokes child.max_concurrent_invokes;
    default_invoke_timeout = override parent.default_invoke_timeout child.default_invoke_timeout;
    env = merge_env_vars parent.env child.env;
  }

  -- A part that is deep-merged where both have it.
  abbrev pub merge_part {ℓ} : {A : Type ℓ} → (A → A → A) → Option A → Option A → Option A
  merge_part merge parent none = parent
  merge_part merge none (some c) = some c
  merge_part merge (some p) (some c) = some (merge p c)

  unfoldable pub merge_harness : HarnessSpec → HarnessSpec → HarnessSpec
  unfolding merge_agent
  merge_harness parent child = record parent {
    command = override_list parent.command child.command;
    args = override_list parent.args child.args;
    working_dir = override_text parent.working_dir child.working_dir;
    shell = override_text parent.shell child.shell;
    system_prompt = override parent.system_prompt child.system_prompt;
    hooks = override parent.hooks child.hooks;
    constraints = override parent.constraints child.constraints;
    agent = merge_part merge_agent parent.agent child.agent;
    use_http_exec = override parent.use_http_exec child.use_http_exec;
    tools = parent.tools ++ child.tools;
    skills = parent.skills ++ child.skills;
  }

  -- `result := parent`, then one override for each field that the function names.
  unfoldable pub merge_template_specs : TemplateSpec → TemplateSpec → TemplateSpec
  merge_template_specs parent child = record parent {
    image = override parent.image child.image;
    resources = override parent.resources child.resources;
    storage = override parent.storage child.storage;
    network = override parent.network child.network;
    timeout = override parent.timeout child.timeout;
    idle_timeout = override parent.idle_timeout child.idle_timeout;
    runtime_class = override parent.runtime_class child.runtime_class;
    security = override parent.security child.security;
    description = override_text parent.description child.description;
    mode = override_text parent.mode child.mode;
    harness = merge_part merge_harness parent.harness child.harness;
    env = merge_env_vars parent.env child.env;
    sidecars = parent.sidecars ++ child.sidecars;
    init_containers = parent.init_containers ++ child.init_containers;
    credentials = parent.credentials ++ child.credentials;
    files = merge_files parent.files child.files;
    init_scripts = parent.init_scripts ++ child.init_scripts;
  }

  -- `for i := 1; i < len(chain); i++` of mergeChain, over the entries after the first.
  unfoldable pub merge_onto : TemplateSpec → List TemplateSpec → TemplateSpec
  merge_onto merged [] = merged
  merge_onto merged (spec ∷ rest) = merge_onto (merge_template_specs merged spec) rest
