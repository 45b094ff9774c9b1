-- ===== src/Template/Config.antt =====
-- MergeSandboxWithTemplate of template_resolver.go: the configuration of a sandbox's pod, from the
-- sandbox's spec, its resolved template and the controller's defaults.
pub mod Precedence
use Prim.Native.String
use agenttier.Prelude.{
  String, Bool, true, false, not, ◌&&◌, Option, none, some, List, [], ◌∷◌, ◌++◌, if◌then◌else◌,
  str_eq,
}
use agenttier.Template.Spec.{
  Parts, ImageSpec, StorageSpec, SecuritySpec, EnvVar, FileSpec, Container, HarnessSpec,
  TemplateSpec, merge_env_vars,
}

abbrev pub default_mount_path : String
default_mount_path = "/workspace"

abbrev pub default_shell : String
default_shell = "/bin/bash"

abbrev pub workspace_volume_name : String
workspace_volume_name = "workspace"

module _ (P : Parts) where
  open P use {PullPolicy, Resources, Credential}

  -- The fields of a sandbox's spec that are merged.
  pub record SandboxSpec : Type 0 where
    pub image : Option (ImageSpec P)
    pub resources : Option Resources
    pub storage : Option (StorageSpec P)
    pub runtime_class : Option String
    pub service_account : String
    pub security : Option (SecuritySpec P)
    pub env : List (EnvVar P)
    pub sidecars : List (Container P)
    pub init_containers : List (Container P)
    pub credentials : List Credential
    pub mode : String

  pub record ControllerDefaults : Type 0 where
    pub image : String
    pub resources : Option Resources
    pub agent_memory_sidecar_image : String

  -- `pull_policy` is `none` for the empty policy.
  pub record MergedPodConfig : Type 0 where
    pub image : String
    pub image_pull_policy : Option PullPolicy
    pub image_pull_secret : String
    pub command : List String
    pub args : List String
    pub working_dir : String
    pub shell : String
    pub env : List (EnvVar P)
    pub resources : Option Resources
    pub runtime_class : Option String
    pub privileged : Bool
    pub mount_path : String
    pub use_http_exec : Bool
    pub sidecars : List (Container P)
    pub init_containers : List (Container P)
    pub init_scripts : List String
    pub files : List (FileSpec P)
    pub credentials : List Credential
    pub service_account : String

  -- A field through a pointer, with what is there for nil.
  abbrev pub through {ℓ κ} : {A : Type ℓ} {B : Type κ} → Option A → B → (A → B) → B
  through none other field = other
  through (some a) other field = field a

  -- `if a != nil { … } else …`
  abbrev pub first_of {ℓ} : {A : Type ℓ} → Option A → Option A → Option A
  first_of (some own) other = some own
  first_of none other = other

  abbrev pub text_or : String → String → String
  text_or own other = if str_eq own "" then other else own

  abbrev pub is_set : Option Bool → Bool
  is_set none = false
  is_set (some b) = b

  -- buildMemorySidecar
  unfoldable pub build_memory_sidecar : String → String → Container P
  build_memory_sidecar image mount_path = record {
    name = "mem0";
    image = image;
    env =
        record { name = "MEM0_HOST"; value = "127.0.0.1"; value_from = none }
        ∷ (record { name = "MEM0_PORT"; value = "8000"; value_from = none }
            ∷ (record {
              name = "MEM0_DATA_DIR";
              value = String.◌++◌ mount_path "/.agenttier/memory";
              value_from = none;
            }
                ∷ []));
    volume_mounts = (workspace_volume_name, mount_path) ∷ [];
    requests = ("cpu", "100m") ∷ (("memory", "128Mi") ∷ []);
    limits = ("cpu", "500m") ∷ (("memory", "512Mi") ∷ []);
    settings = none;
  }

  abbrev pub memory_env : EnvVar P
  memory_env = record { name = "MEM0_BASE_URL"; value = "http://localhost:8000"; value_from = none }

  -- Whether the memory sidecar is added.
  abbrev pub has_memory : SandboxSpec → Option ControllerDefaults → Bool
  has_memory sandbox none = false
  has_memory sandbox (some d) =
      not (str_eq d.agent_memory_sidecar_image "") && str_eq sandbox.mode "agent"

  abbrev pub memory_image : Option ControllerDefaults → String
  memory_image defaults =
      through defaults "" (λ (d : ControllerDefaults). d.agent_memory_sidecar_image)

  -- The image that is chosen, `none` where neither the sandbox nor the template has one.
  abbrev pub image_of : SandboxSpec → Option (TemplateSpec P) → Option (ImageSpec P)
  image_of sandbox template =
      first_of sandbox.image (through template none (λ (t : TemplateSpec P). t.image))

  abbrev pub harness_of : Option (TemplateSpec P) → Option (HarnessSpec P)
  harness_of template = through template none (λ (t : TemplateSpec P). t.harness)

  abbrev pub mount_of : Option (StorageSpec P) → String
  mount_of storage = through storage "" (λ (s : StorageSpec P). s.mount_path)

  abbrev pub privileged_of : Option (SecuritySpec P) → Bool
  privileged_of security = through security false (λ (s : SecuritySpec P). s.privileged)

  -- The configuration before the memory sidecar.
  unfoldable pub base_config :
      SandboxSpec → Option (TemplateSpec P) → Option ControllerDefaults → MergedPodConfig
  base_config sandbox template defaults = record {
    image =
        through (image_of sandbox template)
          (through defaults "" (λ (d : ControllerDefaults). d.image))
          (λ (i : ImageSpec P). i.repository);
    image_pull_policy =
        through (image_of sandbox template) none (λ (i : ImageSpec P). some i.pull_policy);
    image_pull_secret = through (image_of sandbox template) "" (λ (i : ImageSpec P). i.pull_secret);
    command = through (harness_of template) [] (λ (h : HarnessSpec P). h.command);
    args = through (harness_of template) [] (λ (h : HarnessSpec P). h.args);
    working_dir = through (harness_of template) "" (λ (h : HarnessSpec P). h.working_dir);
    shell =
        through (harness_of template) default_shell
          (λ (h : HarnessSpec P). text_or h.shell default_shell);
    env = merge_env_vars P (through template [] (λ (t : TemplateSpec P). t.env)) sandbox.env;
    resources = first_of sandbox.resources (
        first_of (through template none (λ (t : TemplateSpec P). t.resources))
          (through defaults none (λ (d : ControllerDefaults). d.resources)));
    runtime_class =
        first_of sandbox.runtime_class
          (through template none (λ (t : TemplateSpec P). t.runtime_class));
    privileged =
        privileged_of
          (first_of sandbox.security (through template none (λ (t : TemplateSpec P). t.security)));
    mount_path = text_or (mount_of sandbox.storage) (
        text_or (mount_of (through template none (λ (t : TemplateSpec P). t.storage)))
          default_mount_path);
    use_http_exec =
        through (harness_of template) false (λ (h : HarnessSpec P). is_set h.use_http_exec);
    sidecars = through template [] (λ (t : TemplateSpec P). t.sidecars) ++ sandbox.sidecars;
    init_containers =
        through template [] (λ (t : TemplateSpec P). t.init_containers) ++ sandbox.init_containers;
    init_scripts = through template [] (λ (t : TemplateSpec P). t.init_scripts);
    files = through template [] (λ (t : TemplateSpec P). t.files);
    credentials =
        through template [] (λ (t : TemplateSpec P). t.credentials) ++ sandbox.credentials;
    service_account =
        text_or sandbox.service_account
          (through template "" (λ (t : TemplateSpec P). t.service_account));
  }

  unfoldable pub merge_sandbox_with_template :
      SandboxSpec → Option (TemplateSpec P) → Option ControllerDefaults → MergedPodConfig
  unfolding base_config build_memory_sidecar
  merge_sandbox_with_template sandbox template defaults =
      let config = base_config sandbox template defaults in
      if has_memory sandbox defaults
      then record config {
        sidecars =
            config.sidecars ++ build_memory_sidecar (memory_image defaults) config.mount_path ∷ [];
        env = merge_env_vars P config.env (memory_env ∷ []);
      }
      else config
