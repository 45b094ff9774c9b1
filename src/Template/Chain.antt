-- ===== src/Template/Chain.antt =====
-- Resolve, resolveChain, fetchTemplate and mergeChain of template_resolver.go. What the API server
-- answers for a template is a parameter.
pub mod Lineage
use Prim.Native.String
use agenttier.Prelude.{
  ℕ, zero, suc, String, Bool, true, false, Option, none, some, List, [], ◌∷◌, ◌++◌, if◌then◌else◌,
  str_eq, any,
}
use agenttier.Template.Spec.{Parts, TemplateReference, TemplateSpec, merge_onto}

abbrev pub max_inheritance_depth : ℕ
max_inheritance_depth = 10

pub data ResolveError : Type 0 where
  too_deep empty_chain : ResolveError
  circular : String → ResolveError
  not_found unreachable unknown_kind : String → ResolveError
  parent_failed : String → ResolveError → ResolveError

pub data Resolved {ℓ} (A : Type ℓ) : Type ℓ where
  ok : A → Resolved A
  err : ResolveError → Resolved A

-- What a Get answers.
pub data Answer (A : Type 0) : Type 0 where
  found : A → Answer A
  missing failed : Answer A

-- `fmt.Sprintf("%s/%s/%s", ref.Kind, ref.Namespace, ref.Name)`
abbrev pub key_of : TemplateReference → String
key_of ref =
    String.◌++◌ ref.kind (String.◌++◌ "/" (String.◌++◌ ref.namespace (String.◌++◌ "/" ref.name)))

abbrev pub is_visited : List String → String → Bool
is_visited visited key = any (λ v. str_eq v key) visited

module _ (P : Parts) where
  -- A template with its resource version.
  pub record Fetched : Type 0 where
    pub spec : TemplateSpec P
    pub resource_version : String

  pub record ResolvedEntry : Type 0 where
    pub name : String
    pub resource_version : String
    pub spec : TemplateSpec P

  -- The templates of the cluster: those of a namespace by namespace and name, and the cluster's.
  pub record Templates : Type 0 where
    pub namespaced : String → String → Answer Fetched
    pub cluster_wide : String → Answer Fetched

  abbrev pub answered : String → Answer Fetched → Resolved Fetched
  answered name (found t) = ok t
  answered name missing = err (not_found name)
  answered name failed = err (unreachable name)

  -- `switch kind`, after the default kind.
  unfoldable pub fetch_template : Templates → String → TemplateReference → Resolved Fetched
  fetch_template templates sandbox_namespace ref =
      let kind = if str_eq ref.kind "" then "SandboxTemplate" else ref.kind in
      let ns = if str_eq ref.namespace "" then sandbox_namespace else ref.namespace in
      if str_eq kind "SandboxTemplate"
      then answered ref.name (templates.namespaced ns ref.name)
      else (if str_eq kind "ClusterSandboxTemplate"
          then answered ref.name (templates.cluster_wide ref.name)
          else err (unknown_kind kind))

  abbrev pub entry_of : TemplateReference → Fetched → ResolvedEntry
  entry_of ref t = record { name = ref.name; resource_version = t.resource_version; spec = t.spec }

  -- The parent's chain, and then this template.
  abbrev pub onto_parent :
      String → ResolvedEntry → Resolved (List ResolvedEntry) → Resolved (List ResolvedEntry)
  onto_parent parent entry (ok chain) = ok (chain ++ entry ∷ [])
  onto_parent parent entry (err e) = err (parent_failed parent e)

  -- The rest of the function once the template is there; `above` resolves the parent.
  abbrev pub with_parent :
      (TemplateReference → Resolved (List ResolvedEntry))
      → ResolvedEntry
      → Option TemplateReference
      → Resolved (List ResolvedEntry)
  with_parent above entry none = ok (entry ∷ [])
  with_parent above entry (some parent) = onto_parent parent.name entry (above parent)

  abbrev pub with_template :
      (TemplateReference → Resolved (List ResolvedEntry))
      → TemplateReference
      → Resolved Fetched
      → Resolved (List ResolvedEntry)
  with_template above ref (err e) = err e
  with_template above ref (ok t) = with_parent above (entry_of ref t) t.spec.inherits_from

  abbrev pub unless_visited :
      TemplateReference → Bool → Resolved (List ResolvedEntry) → Resolved (List ResolvedEntry)
  unless_visited ref true chain = err (circular (key_of ref))
  unless_visited ref false chain = chain

  -- `left` is MaxInheritanceDepth less the depth.
  unfoldable pub resolve_chain :
      Templates → String → ℕ → TemplateReference → List String → Resolved (List ResolvedEntry)
  resolve_chain templates ns zero ref visited = err too_deep
  resolve_chain templates ns (suc left) ref visited =
      let above = λ (parent : TemplateReference).
        resolve_chain templates ns left parent (key_of ref ∷ visited) in
      unless_visited ref (is_visited visited (key_of ref))
        (with_template above ref (fetch_template templates ns ref))

  -- mergeChain, the direct template's name and version being the last entry's.
  pub record ResolvedTemplate : Type 0 where
    pub name : String
    pub resource_version : String
    pub spec : TemplateSpec P

  abbrev pub last_of : ResolvedEntry → List ResolvedEntry → ResolvedEntry
  last_of e [] = e
  last_of e (f ∷ rest) = last_of f rest

  abbrev pub specs_of : List ResolvedEntry → List (TemplateSpec P)
  specs_of [] = []
  specs_of (e ∷ rest) = e.spec ∷ specs_of rest

  abbrev pub merge_chain : List ResolvedEntry → Resolved ResolvedTemplate
  merge_chain [] = err empty_chain
  merge_chain (root ∷ rest) =
      let direct = last_of root rest in
      ok (record {
        name = direct.name;
        resource_version = direct.resource_version;
        spec = merge_onto P root.spec (specs_of rest);
      })

  -- `none` is the nil result without a reference.
  unfoldable pub resolve :
      Templates → String → Option TemplateReference → Resolved (Option ResolvedTemplate)
  unfolding resolve_chain
  resolve templates ns none = ok none
  resolve templates ns (some ref) = elim (resolve_chain templates ns max_inheritance_depth ref []) [
    | err e ↦ err e
    | ok chain ↦ elim (merge_chain chain) [ err e ↦ err e | ok t ↦ ok (some t) ]
  ]
