-- ===== src/Template/Chain/Lineage.antt =====
-- Which chains of templates are resolved.
use agenttier.Prelude.{
  ℕ, zero, suc, ◌≤◌, String, Bool, true, false, Option, none, some, List, [], ◌∷◌, ◌++◌, ◌≡◌, refl,
  sym, subst, ◌↔◌, arith, length, length-append,
}
use agenttier.Template.Spec.{Parts, TemplateReference}
use agenttier.Template.Chain.{
  Resolved, ok, err, Fetched, ResolvedEntry, Templates, entry_of, key_of, is_visited,
  fetch_template, resolve_chain, onto_parent, with_parent, with_template, unless_visited,
  max_inheritance_depth,
}

-- No key comes twice, nor one that was visited before.
abbrev pub Fresh : List String → List String → Type 0
Fresh visited [] = Unit
Fresh visited (k ∷ keys) = (is_visited visited k ≡ false) × Fresh (k ∷ visited) keys

module _ (P : Parts) (templates : Templates P) (ns : String) where
  -- The ancestry of a reference, the root first, with the keys of its references from the last back.
  pub data Lineage : TemplateReference → List (ResolvedEntry P) → List String → Type 0 where
    root :
        {ref : TemplateReference} (t : Fetched P)
        → fetch_template P templates ns ref ≡ ok t
        → t.spec.inherits_from ≡ none
        → Lineage ref (entry_of P ref t ∷ []) (key_of ref ∷ [])
    child :
        {ref : TemplateReference} (t : Fetched P) (parent : TemplateReference)
        {chain : List (ResolvedEntry P)} {keys : List String}
        → fetch_template P templates ns ref ≡ ok t
        → t.spec.inherits_from ≡ some parent
        → Lineage parent chain keys
        → Lineage ref (chain ++ entry_of P ref t ∷ []) (key_of ref ∷ keys)

  complete :
      (left : ℕ) (visited : List String) {ref : TemplateReference} {chain : List (ResolvedEntry P)}
      {keys : List String}
      → Lineage ref chain keys
      → length chain ≤ left
      → Fresh visited keys
      → resolve_chain P templates ns left ref visited ≡ ok chain
  unfolding resolve_chain
  complete zero visited (root t e i) h f = absurd (omega arith)
  complete zero visited (child t parent {chain} e i l) h f =
      absurd (omega (arith, length-append chain (entry_of P _ t ∷ [])))
  complete (suc left) visited (root t e i) h f = rw (f.0, e, i) refl
  complete (suc left) visited (child {ref} t parent {chain} e i l) h f =
      let r =
        complete left (key_of ref ∷ visited) l
          (omega (arith, length-append chain (entry_of P ref t ∷ []))) f.1 in
      rw (f.0, e, i, r) refl

  -- The parts of a chain that is resolved.
  abbrev Sound : ℕ → List String → TemplateReference → List (ResolvedEntry P) → Type 0
  Sound left visited ref chain =
      (keys : List String) × Lineage ref chain keys × (length chain ≤ left) × Fresh visited keys

  onto-ok :
      (name : String) (entry : ResolvedEntry P) (r : Resolved (List (ResolvedEntry P)))
      (chain : List (ResolvedEntry P))
      → onto_parent P name entry r ≡ ok chain
      → (above : List (ResolvedEntry P)) × (r ≡ ok above) × (chain ≡ above ++ entry ∷ [])
  onto-ok name entry (ok above) chain e = (above, refl, cc)
  onto-ok name entry (err x) chain e = cc

  module _ (left : ℕ) (visited : List String) (ref : TemplateReference)
      (chain : List (ResolvedEntry P))
      (above : TemplateReference → Resolved (List (ResolvedEntry P)))
      (above-Sound : (parent : TemplateReference) (c : List (ResolvedEntry P))
        → above parent ≡ ok c
        → Sound left (key_of ref ∷ visited) parent c) where
    parent-Sound :
        (t : Fetched P) (above_it : Option TemplateReference)
        → is_visited visited (key_of ref) ≡ false
        → fetch_template P templates ns ref ≡ ok t
        → t.spec.inherits_from ≡ above_it
        → with_parent P above (entry_of P ref t) above_it ≡ ok chain
        → Sound (suc left) visited ref chain
    parent-Sound t none new e i h =
        let same : chain ≡ entry_of P ref t ∷ [] = cc in
        subst (Sound (suc left) visited ref) (sym same)
          (key_of ref ∷ [], root t e i, omega arith, (new, tt))
    parent-Sound t (some parent) new e i h =
        let (upper, r, same) = onto-ok parent.name (entry_of P ref t) (above parent) chain h in
        let (keys, l, short, f) = above-Sound parent upper r in
        subst (Sound (suc left) visited ref) (sym same) (
          key_of ref ∷ keys,
          child t parent e i l,
          omega (arith, length-append upper (entry_of P ref t ∷ [])),
          (new, f),
        )

    template-Sound :
        (fetched : Resolved (Fetched P))
        → is_visited visited (key_of ref) ≡ false
        → fetch_template P templates ns ref ≡ fetched
        → with_template P above ref fetched ≡ ok chain
        → Sound (suc left) visited ref chain
    template-Sound (err x) new e h = cc
    template-Sound (ok t) new e h = parent-Sound t t.spec.inherits_from new e refl h

    visit-Sound :
        (seen : Bool)
        → is_visited visited (key_of ref) ≡ seen
        → unless_visited P ref seen (with_template P above ref (fetch_template P templates ns ref))
          ≡ ok chain
        → Sound (suc left) visited ref chain
    visit-Sound true e h = cc
    visit-Sound false e h = template-Sound (fetch_template P templates ns ref) e refl h

  sound :
      (left : ℕ) (visited : List String) (ref : TemplateReference) (chain : List (ResolvedEntry P))
      → resolve_chain P templates ns left ref visited ≡ ok chain
      → Sound left visited ref chain
  unfolding resolve_chain
  sound zero visited ref chain h = cc
  sound (suc left) visited ref chain h =
      visit-Sound left visited ref chain
        (λ parent. resolve_chain P templates ns left parent (key_of ref ∷ visited))
        (λ parent c e. sound left (key_of ref ∷ visited) parent c e)
        (is_visited visited (key_of ref)) refl h

-- A reference resolves to a chain exactly when that is its ancestry in the cluster, up to a template
-- that inherits from none, it has at most ten templates, and no key comes twice among their references.
pub resolve_chain-Lineage :
    (P : Parts) (templates : Templates P) (ns : String) (ref : TemplateReference)
    (chain : List (ResolvedEntry P))
    → (resolve_chain P templates ns max_inheritance_depth ref [] ≡ ok chain) ↔ (
        (keys : List String) × Lineage P templates ns ref chain keys
        × (length chain ≤ 10)
        × Fresh [] keys)
resolve_chain-Lineage P templates ns ref chain = (
  sound P templates ns max_inheritance_depth [] ref chain,
  λ s. complete P templates ns max_inheritance_depth [] s.1 s.2 s.3,
)
