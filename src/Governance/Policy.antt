-- ===== src/Governance/Policy.antt =====
-- pkg/governance/policy.go: policies, the merge of a namespace's policy over the cluster's, and the
-- count of what a namespace uses.
pub mod Merging
pub mod Counting
use agenttier.Prelude.{
  ℕ, suc, ◌+◌, String, Bool, true, false, not, ◌&&◌, Option, none, some, List, [], ◌∷◌,
}
use agenttier.Prelude.{if◌then◌else◌, is_empty, str_eq}
use agenttier.Prelude.Int.{ℤ, pos, is_zero_ℤ}
use agenttier.Lifecycle.Phase.{Phase, deleting, error}

-- The integers are Go's `int`, which a policy's JSON may make negative.
pub record Policy : Type 0 where
  pub max_sandboxes_per_user : ℤ
  pub max_sandboxes_total : ℤ
  pub max_cpu : String
  pub max_memory : String
  pub max_storage : String
  pub max_timeout : String
  pub max_idle_timeout : String
  pub allowed_templates : List String
  pub approved_registries : List String
  pub max_agent_sandboxes : ℤ
  pub allowed_agent_images : List String
  pub max_concurrent_invokes_per_sandbox : ℤ
  pub description : String

-- The zero value `Policy{}`.
abbrev pub empty_policy : Policy
empty_policy = record {
  max_sandboxes_per_user = pos 0;
  max_sandboxes_total = pos 0;
  max_cpu = "";
  max_memory = "";
  max_storage = "";
  max_timeout = "";
  max_idle_timeout = "";
  allowed_templates = [];
  approved_registries = [];
  max_agent_sandboxes = pos 0;
  allowed_agent_images = [];
  max_concurrent_invokes_per_sandbox = pos 0;
  description = "";
}

unfoldable pub is_empty_policy : Policy → Bool
is_empty_policy p =
    is_zero_ℤ p.max_sandboxes_per_user
    && (is_zero_ℤ p.max_sandboxes_total
        && (str_eq p.max_cpu ""
            && (str_eq p.max_memory ""
                && (str_eq p.max_storage ""
                    && (str_eq p.max_timeout ""
                        && (str_eq p.max_idle_timeout ""
                            && (is_empty p.allowed_templates
                                && (is_empty p.approved_registries
                                    && (is_zero_ℤ p.max_agent_sandboxes
                                        && (is_empty p.allowed_agent_images
                                            && is_zero_ℤ
                                                p.max_concurrent_invokes_per_sandbox))))))))))

abbrev pub override_int : ℤ → ℤ → ℤ
override_int parent child = if is_zero_ℤ child then parent else child

abbrev pub override_text : String → String → String
override_text parent child = if str_eq child "" then parent else child

abbrev pub override_list : List String → List String → List String
override_list parent child = if is_empty child then parent else child

-- `out := parent`, then one override for each field that the function names.
unfoldable pub merge_policies : Policy → Policy → Policy
merge_policies parent child = record parent {
  max_sandboxes_per_user = override_int parent.max_sandboxes_per_user child.max_sandboxes_per_user;
  max_sandboxes_total = override_int parent.max_sandboxes_total child.max_sandboxes_total;
  max_cpu = override_text parent.max_cpu child.max_cpu;
  max_memory = override_text parent.max_memory child.max_memory;
  max_storage = override_text parent.max_storage child.max_storage;
  max_timeout = override_text parent.max_timeout child.max_timeout;
  max_idle_timeout = override_text parent.max_idle_timeout child.max_idle_timeout;
  allowed_templates = override_list parent.allowed_templates child.allowed_templates;
  approved_registries = override_list parent.approved_registries child.approved_registries;
  description = override_text parent.description child.description;
}

-- `Resolve` over a store's GetPolicy, which answers with a policy or fails (`none`).
unfoldable pub resolve : (String → Option Policy) → String → Option Policy
resolve get_policy namespace = elim (get_policy "") [
  | none ↦ none
  | some cluster ↦
      if str_eq namespace ""
      then some cluster
      else elim (get_policy namespace) [ none ↦ none | some ns ↦ some (merge_policies cluster ns) ]
]

pub data Mode : Type 0 where
  code agent : Mode

abbrev pub is_agent : Mode → Bool
is_agent agent = true
is_agent code = false

pub record Usage : Type 0 where
  pub total_sandboxes : ℕ
  pub user_sandboxes : ℕ
  pub agent_sandboxes : ℕ

-- What CountUsage reads of a sandbox: its phase, `CreatedBy.Sub` and its mode.
pub record Listed : Type 0 where
  pub phase : Phase
  pub created_by : Option String
  pub mode : Mode

abbrev pub is_counted : Phase → Bool
is_counted deleting = false
is_counted error = false
is_counted _ = true

abbrev pub owned_by : String → Option String → Bool
owned_by user_sub none = false
owned_by user_sub (some sub) = str_eq sub user_sub

-- One round of the loop: `continue` leaves the counters as they are.
abbrev pub count_one : String → Listed → Usage → Usage
count_one user_sub sb u =
    if is_counted sb.phase
    then record {
      total_sandboxes = u.total_sandboxes + 1;
      user_sandboxes =
          if owned_by user_sub sb.created_by then u.user_sandboxes + 1 else u.user_sandboxes;
      agent_sandboxes = if is_agent sb.mode then u.agent_sandboxes + 1 else u.agent_sandboxes;
    }
    else u

unfoldable pub count_from : String → List Listed → Usage → Usage
count_from user_sub [] u = u
count_from user_sub (sb ∷ items) u = count_from user_sub items (count_one user_sub sb u)

unfoldable pub count_usage : List Listed → String → Usage
unfolding count_from
count_usage list user_sub =
    count_from user_sub list
      (record { total_sandboxes = 0; user_sandboxes = 0; agent_sandboxes = 0 })
