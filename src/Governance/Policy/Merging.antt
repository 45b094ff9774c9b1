-- ===== src/Governance/Policy/Merging.antt =====
-- What the merge of two policies keeps.
use agenttier.Prelude.{String, Option, some, List, [], ◌∷◌, ◌≡◌, ◌≢◌, refl, arith, eq_iff}
use agenttier.Prelude.Int.{ℤ, pos}
use agenttier.Governance.Policy.{
  Policy, override_int, override_text, override_list, merge_policies, resolve,
}

-- A field of the merged policy is the child's where the child sets it, and the parent's otherwise.
abbrev pub Overrides {ℓ} : {A : Type ℓ} → A → A → A → A → Type ℓ
Overrides unset parent child merged =
    (child ≢ unset → merged ≡ child) × (child ≡ unset → merged ≡ parent)

int_Overrides : (p c : ℤ) → Overrides (pos 0) p c (override_int p c)
int_Overrides p c = (λ h. ground arith, λ h. ground arith)

text_Overrides : (p c : String) → Overrides "" p c (override_text p c)
text_Overrides p c = (λ h. ground (arith, eq_iff c ""), λ h. ground (arith, eq_iff c ""))

list_Overrides : (p c : List String) → Overrides [] p c (override_list p c)
list_Overrides p [] = (λ h. absurd (h refl), λ h. refl)
list_Overrides p (x ∷ c) = (λ h. refl, λ h. cc)

-- Where both policies can be read, a namespace's policy overrides the cluster's in each of the two
-- sandbox quotas, the five resource and timeout caps, the two allowlists of templates and registries,
-- and the description: a value that is set replaces the cluster's, one that is not leaves it.
pub resolve-Overrides :
    (get_policy : String → Option Policy) (namespace : String) (c n : Policy)
    → namespace ≢ ""
    → get_policy "" ≡ some c
    → get_policy namespace ≡ some n
    → (p : Policy) × (resolve get_policy namespace ≡ some p)
      × Overrides (pos 0) c.max_sandboxes_per_user n.max_sandboxes_per_user p.max_sandboxes_per_user
      × Overrides (pos 0) c.max_sandboxes_total n.max_sandboxes_total p.max_sandboxes_total
      × Overrides "" c.max_cpu n.max_cpu p.max_cpu
      × Overrides "" c.max_memory n.max_memory p.max_memory
      × Overrides "" c.max_storage n.max_storage p.max_storage
      × Overrides "" c.max_timeout n.max_timeout p.max_timeout
      × Overrides "" c.max_idle_timeout n.max_idle_timeout p.max_idle_timeout
      × Overrides [] c.allowed_templates n.allowed_templates p.allowed_templates
      × Overrides [] c.approved_registries n.approved_registries p.approved_registries
      × Overrides "" c.description n.description p.description
unfolding resolve merge_policies
resolve-Overrides get_policy namespace c n named hc hn = (
  merge_policies c n,
  ground (arith, eq_iff namespace ""),
  int_Overrides _ _,
  int_Overrides _ _,
  text_Overrides _ _,
  text_Overrides _ _,
  text_Overrides _ _,
  text_Overrides _ _,
  text_Overrides _ _,
  list_Overrides _ _,
  list_Overrides _ _,
  text_Overrides _ _,
)

-- The three limits on agents are not merged: the resolved policy of a namespace has the cluster's
-- cap on agent sandboxes, its agent images and its ceiling on concurrent invokes, whatever the
-- namespace's own policy says.
pub resolve_keeps_agent_limits :
    (get_policy : String → Option Policy) (namespace : String) (c n p : Policy)
    → get_policy "" ≡ some c
    → get_policy namespace ≡ some n
    → resolve get_policy namespace ≡ some p
    → (p.max_agent_sandboxes ≡ c.max_agent_sandboxes)
      × (p.allowed_agent_images ≡ c.allowed_agent_images)
      × (p.max_concurrent_invokes_per_sandbox ≡ c.max_concurrent_invokes_per_sandbox)
unfolding resolve merge_policies
resolve_keeps_agent_limits get_policy namespace c n p hc hn h = ground arith
