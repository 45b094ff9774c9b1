-- ===== src/Template/Config/Precedence.antt =====
-- Who decides on what in the configuration of a pod.
use agenttier.Prelude.{
  String, Option, none, List, [], ◌∷◌, ◌≡◌, ap, ◌∙◌, if◌then◌else◌, Bool-cases, inl, inr,
}
use agenttier.Template.Keyed.{last_with, or_else, last_with-merge_keyed}
use agenttier.Template.Spec.{Parts, EnvVar, TemplateSpec}
use agenttier.Template.Config.{
  SandboxSpec, ControllerDefaults, through, has_memory, memory_env, base_config,
  merge_sandbox_with_template,
}

module _ (P : Parts) (sandbox : SandboxSpec P) (template : Option (TemplateSpec P))
    (defaults : Option (ControllerDefaults P)) where
  abbrev pub var : String → List (EnvVar P) → Option (EnvVar P)
  var = last_with (λ (e : EnvVar P). e.name)

  base_env :
      (k : String)
      → var k (base_config P sandbox template defaults).env
        ≡ or_else
            (var k sandbox.env)
            (var k (through P template [] (λ (t : TemplateSpec P). t.env)))
  unfolding base_config
  base_env k = last_with-merge_keyed (λ (e : EnvVar P). e.name) k _ sandbox.env

  -- Of each environment variable the pod has what the memory sidecar sets, if that is added, else
  -- what the sandbox sets, and else what the template sets.
  pub merge_sandbox_with_template_env :
      (k : String)
      → var k (merge_sandbox_with_template P sandbox template defaults).env
        ≡ or_else (if has_memory P sandbox defaults then var k (memory_env P ∷ []) else none) (
            or_else
              (var k sandbox.env)
              (var k (through P template [] (λ (t : TemplateSpec P). t.env))))
  unfolding merge_sandbox_with_template
  merge_sandbox_with_template_env k = elim (Bool-cases (has_memory P sandbox defaults)) [
    | inl on ↦ rw on (
        last_with-merge_keyed (λ (e : EnvVar P). e.name) k
          (base_config P sandbox template defaults).env (memory_env P ∷ [])
        ∙ ap (or_else (var k (memory_env P ∷ []))) (base_env k))
    | inr off ↦ rw off (base_env k)
  ]
