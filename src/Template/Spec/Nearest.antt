-- ===== src/Template/Spec/Nearest.antt =====
-- What the merge of a whole chain keeps of each template.
use agenttier.Prelude.{String, Option, List, [], ◌∷◌, ◌++◌, ◌≡◌, refl, ap, sym, ◌∙◌}
use mathlib.Core.List.{append-nil, append_assoc}
use agenttier.Template.Keyed.{last_with, or_else, last_with-merge_keyed}
use agenttier.Template.Spec.{
  Parts, TemplateSpec, EnvVar, FileSpec, override, override_text, merge_template_specs, merge_onto,
}

module _ (P : Parts) where
  abbrev Spec : Type 0
  Spec = TemplateSpec P

  -- The value that the template nearest to the end of the chain sets, and `start` if none does.
  abbrev pub nearest : {A : Type 0} → (Spec → Option A) → Option A → List Spec → Option A
  nearest field start [] = start
  nearest field start (s ∷ rest) = nearest field (override start (field s)) rest

  abbrev pub nearest_text : (Spec → String) → String → List Spec → String
  nearest_text field start [] = start
  nearest_text field start (s ∷ rest) = nearest_text field (override_text start (field s)) rest

  -- All of a list, template after template.
  abbrev pub all_of : {A : Type 0} → (Spec → List A) → List Spec → List A
  all_of field [] = []
  all_of field (s ∷ rest) = field s ++ all_of field rest

  -- The entry in force for a key over the chain.
  abbrev pub nearest_with :
      {A : Type 0} → (A → String) → String → (Spec → List A) → Option A → List Spec → Option A
  nearest_with key k field start [] = start
  nearest_with key k field start (s ∷ rest) =
      nearest_with key k field (or_else (last_with key k (field s)) start) rest

  -- How the merge of a chain relates to its templates, the root `start` first.
  pub record MergesChain (start : Spec) (rest : List Spec) (m : Spec) : Type 0 where
    pub image : m.image ≡ nearest (λ (s : Spec). s.image) start.image rest
    pub resources : m.resources ≡ nearest (λ (s : Spec). s.resources) start.resources rest
    pub storage : m.storage ≡ nearest (λ (s : Spec). s.storage) start.storage rest
    pub network : m.network ≡ nearest (λ (s : Spec). s.network) start.network rest
    pub timeout : m.timeout ≡ nearest (λ (s : Spec). s.timeout) start.timeout rest
    pub idle_timeout :
        m.idle_timeout ≡ nearest (λ (s : Spec). s.idle_timeout) start.idle_timeout rest
    pub runtime_class :
        m.runtime_class ≡ nearest (λ (s : Spec). s.runtime_class) start.runtime_class rest
    pub security : m.security ≡ nearest (λ (s : Spec). s.security) start.security rest
    pub description :
        m.description ≡ nearest_text (λ (s : Spec). s.description) start.description rest
    pub mode : m.mode ≡ nearest_text (λ (s : Spec). s.mode) start.mode rest
    pub init_scripts :
        m.init_scripts ≡ start.init_scripts ++ all_of (λ (s : Spec). s.init_scripts) rest
    pub sidecars : m.sidecars ≡ start.sidecars ++ all_of (λ (s : Spec). s.sidecars) rest
    pub init_containers :
        m.init_containers ≡ start.init_containers ++ all_of (λ (s : Spec). s.init_containers) rest
    pub credentials : m.credentials ≡ start.credentials ++ all_of (λ (s : Spec). s.credentials) rest
    pub env :
        (k : String)
        → last_with (λ (e : EnvVar P). e.name) k m.env
          ≡ nearest_with
              (λ (e : EnvVar P). e.name)
              k
              (λ (s : Spec). s.env)
              (last_with (λ (e : EnvVar P). e.name) k start.env)
              rest
    pub files :
        (k : String)
        → last_with (λ (f : FileSpec P). f.path) k m.files
          ≡ nearest_with
              (λ (f : FileSpec P). f.path)
              k
              (λ (s : Spec). s.files)
              (last_with (λ (f : FileSpec P). f.path) k start.files)
              rest

  -- In the merge of a chain each of the ten plain settings is that of the template nearest to the end
  -- that sets it; of the environment and the files, for each name, the entry of the nearest template
  -- that has one is in force; and scripts, sidecars, init containers and credentials are those of all
  -- templates, the root's first.
  pub merge_onto-MergesChain :
      (start : Spec) (rest : List Spec) → MergesChain start rest (merge_onto P start rest)
  unfolding merge_onto merge_template_specs
  merge_onto-MergesChain start [] = record {
    image = refl;
    resources = refl;
    storage = refl;
    network = refl;
    timeout = refl;
    idle_timeout = refl;
    runtime_class = refl;
    security = refl;
    description = refl;
    mode = refl;
    init_scripts = sym (append-nil start.init_scripts);
    sidecars = sym (append-nil start.sidecars);
    init_containers = sym (append-nil start.init_containers);
    credentials = sym (append-nil start.credentials);
    env = λ k. refl;
    files = λ k. refl;
  }
  merge_onto-MergesChain start (s ∷ rest) =
      let m = merge_onto-MergesChain (merge_template_specs P start s) rest in
      record {
        image = m.image;
        resources = m.resources;
        storage = m.storage;
        network = m.network;
        timeout = m.timeout;
        idle_timeout = m.idle_timeout;
        runtime_class = m.runtime_class;
        security = m.security;
        description = m.description;
        mode = m.mode;
        init_scripts =
            m.init_scripts
            ∙ append_assoc start.init_scripts s.init_scripts
                (all_of (λ (t : Spec). t.init_scripts) rest);
        sidecars =
            m.sidecars
            ∙ append_assoc start.sidecars s.sidecars (all_of (λ (t : Spec). t.sidecars) rest);
        init_containers =
            m.init_containers
            ∙ append_assoc start.init_containers s.init_containers
                (all_of (λ (t : Spec). t.init_containers) rest);
        credentials =
            m.credentials
            ∙ append_assoc start.credentials s.credentials
                (all_of (λ (t : Spec). t.credentials) rest);
        env = λ k.
            m.env k
            ∙ ap
                (λ found.
                  nearest_with (λ (e : EnvVar P). e.name) k (λ (t : Spec). t.env) found rest)
                (last_with-merge_keyed (λ (e : EnvVar P). e.name) k start.env s.env);
        files = λ k.
            m.files k
            ∙ ap
                (λ found.
                  nearest_with (λ (e : FileSpec P). e.path) k (λ (t : Spec). t.files) found rest)
                (last_with-merge_keyed (λ (e : FileSpec P). e.path) k start.files s.files);
      }

  -- A service account is not inherited by the merge: whatever the other templates of a chain set, the
  -- merged one has the root's.
  pub merge_onto_service_account :
      (start : Spec) (rest : List Spec)
      → (merge_onto P start rest).service_account ≡ start.service_account
  unfolding merge_onto merge_template_specs
  merge_onto_service_account start [] = refl
  merge_onto_service_account start (s ∷ rest) =
      merge_onto_service_account (merge_template_specs P start s) rest
