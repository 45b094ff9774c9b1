-- ===== src/Governance/Policy/Counting.antt =====
-- CountUsage against a description by filters.
use agenttier.Prelude.{◌+◌, String, Bool, ◌&&◌, List, [], ◌∷◌, length, ◌≡◌, arith, keep}
use agenttier.Governance.Policy.{
  Listed, Usage, is_counted, owned_by, is_agent, count_one, count_from, count_usage,
}

abbrev pub counted : Listed → Bool
counted sb = is_counted sb.phase

abbrev pub owned : String → Listed → Bool
owned user_sub sb = is_counted sb.phase && owned_by user_sub sb.created_by

abbrev pub in_agent_mode : Listed → Bool
in_agent_mode sb = is_counted sb.phase && is_agent sb.mode

abbrev Adds : String → List Listed → Usage → Type 0
Adds user_sub list u =
    let v = count_from user_sub list u in
    (v.total_sandboxes ≡ u.total_sandboxes + length (keep counted list))
    × (v.user_sandboxes ≡ u.user_sandboxes + length (keep (owned user_sub) list))
    × (v.agent_sandboxes ≡ u.agent_sandboxes + length (keep in_agent_mode list))

count_from-Adds : (user_sub : String) (list : List Listed) (u : Usage) → Adds user_sub list u
unfolding count_from
count_from-Adds user_sub [] u = omega arith
count_from-Adds user_sub (sb ∷ list) u =
    ground (arith, count_from-Adds user_sub list (count_one user_sub sb u))

-- CountUsage counts the sandboxes that are neither Deleting nor in Error: all of them, those whose
-- creator is the caller, and those in agent mode.
pub count_usage_lem :
    (list : List Listed) (user_sub : String)
    → let u = count_usage list user_sub in
      (u.total_sandboxes ≡ length (keep counted list))
      × (u.user_sandboxes ≡ length (keep (owned user_sub) list))
      × (u.agent_sandboxes ≡ length (keep in_agent_mode list))
unfolding count_usage
count_usage_lem list user_sub = omega (arith, count_from-Adds user_sub list _)
