-- ===== src/Governance/Tests.antt =====
-- The theorems on governance at concrete inputs.
use agenttier.Prelude.{
  ℕ, String, Option, none, some, [], ◌∷◌, refl, ltb, str_eq, if◌then◌else◌, ◌==◌,
}
use agenttier.Prelude.Int.{ℤ, pos}
use agenttier.Governance.Policy.{Policy, empty_policy, agent, Usage}
use agenttier.Governance.Engine.{Formats, Spec, count_violations, check_resource_limits, check}
use agenttier.Governance.Engine.Admission.{Admissible, check-Admissible}

-- A cluster with caps on sandboxes and agents, and a namespace that sets its own.
abbrev cluster : Policy
cluster = record empty_policy {
  max_sandboxes_total = pos 10;
  max_cpu = "4";
  allowed_templates = "base" ∷ [];
  max_agent_sandboxes = pos 2;
}

abbrev team : Policy
team = record empty_policy {
  max_sandboxes_total = pos 3;
  max_agent_sandboxes = pos 1;
  max_timeout = "8h";
}

abbrev one_used : Usage
one_used = record { total_sandboxes = 1; user_sandboxes = 1; agent_sandboxes = 0 }

-- Quantities as whole numbers, of which two texts are known.
abbrev parse_number : String → Option ℕ
parse_number text = if str_eq text "4" then some 4 else none

abbrev parse_time : String → Option ℤ
parse_time text = if str_eq text "8h" then some (pos 28800) else none

abbrev whole_numbers : Formats
whole_numbers = record {
  Quantity = ℕ;
  parse_quantity = parse_number;
  greater = λ a b. ltb b a;
  is_zero = λ a. a == 0;
  parse_duration = parse_time;
}

abbrev merged : Policy
merged = record cluster { approved_registries = "ghcr.io/team/" ∷ []; max_timeout = "8h" }

abbrev small_agent : Spec whole_numbers
small_agent = record {
  template_ref = some "base";
  image = some "ghcr.io/team/agent";
  mode = agent;
  cpu_limit = some 4;
  memory_limit = none;
  storage_size = none;
  timeout = some (pos 3600);
  idle_timeout = none;
}

check-Admissible_example : Admissible whole_numbers merged one_used small_agent
unfolding check count_violations check_resource_limits
check-Admissible_example = check-Admissible whole_numbers merged one_used small_agent refl
