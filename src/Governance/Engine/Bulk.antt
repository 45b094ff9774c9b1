-- ===== src/Governance/Engine/Bulk.antt =====
-- The batch gate against one admission at a time.
use agenttier.Prelude.{ℕ, suc, ◌+◌, ◌<◌, List, [], ◌∷◌, ◌≡◌, ◌↔◌, arith, length}
use agenttier.Prelude.{if◌then◌else◌}
use agenttier.Prelude.Int.{ℤ, pos, ◌≤ℤ◌, ◌<ℤ◌}
use agenttier.Governance.Policy.{Policy, Usage, Mode, code, agent, is_agent}
use agenttier.Governance.Engine.{count_violations, check_bulk}

-- The usage once a sandbox of the caller has been created.
abbrev pub created : Usage → Mode → Usage
created u mode = record {
  total_sandboxes = u.total_sandboxes + 1;
  user_sandboxes = u.user_sandboxes + 1;
  agent_sandboxes = if is_agent mode then u.agent_sandboxes + 1 else u.agent_sandboxes;
}

abbrev pub count_agents : List Mode → ℕ
count_agents [] = 0
count_agents (agent ∷ modes) = suc (count_agents modes)
count_agents (code ∷ modes) = count_agents modes

-- Every creation of a sequence passes the sandbox-count quotas of Check, each with the usage that
-- the ones before it leave.
abbrev pub AdmitsEach : Policy → Usage → List Mode → Type 0
AdmitsEach policy u [] = Unit
AdmitsEach policy u (mode ∷ modes) =
    (count_violations policy u mode ≡ []) × AdmitsEach policy (created u mode) modes

-- A cap leaves room for `used`, if it is a cap at all.
abbrev Room : ℤ → ℕ → Type 0
Room cap used = pos 0 <ℤ cap → pos used ≤ℤ cap

abbrev Fits : Policy → Usage → ℕ → ℕ → Type 0
Fits p u n a =
    Room p.max_sandboxes_total (u.total_sandboxes + n)
    × Room p.max_sandboxes_per_user (u.user_sandboxes + n)
    × (0 < a → Room p.max_agent_sandboxes (u.agent_sandboxes + a))

bulk_Fits : (p : Policy) (u : Usage) (n a : ℕ) → (check_bulk p u n a ≡ []) ↔ Fits p u n a
unfolding check_bulk
bulk_Fits p u n a = ground arith

single_Fits :
    (p : Policy) (u : Usage) (m : Mode)
    → (count_violations p u m ≡ []) ↔ Fits p u 1 (count_agents (m ∷ []))
unfolding count_violations
single_Fits p u code = ground arith
single_Fits p u agent = ground arith

Fits-cons :
    (p : Policy) (u : Usage) (m : Mode) (n a : ℕ)
    → Fits p u (suc (suc n)) (count_agents (m ∷ []) + a)
      ↔ (Fits p u 1 (count_agents (m ∷ [])) × Fits p (created u m) (suc n) a)
Fits-cons p u code n a = ground arith
Fits-cons p u agent n a = ground arith

count_agents-cons :
    (m : Mode) (ms : List Mode) → count_agents (m ∷ ms) ≡ count_agents (m ∷ []) + count_agents ms
count_agents-cons code ms = omega arith
count_agents-cons agent ms = omega arith

Fits-each :
    (p : Policy) (u : Usage) (m : Mode) (ms : List Mode)
    → Fits p u (length (m ∷ ms)) (count_agents (m ∷ ms)) ↔ AdmitsEach p u (m ∷ ms)
Fits-each p u m [] = (λ f. ((single_Fits p u m).1 f, tt), λ e. (single_Fits p u m).0 e.0)
Fits-each p u m (k ∷ ms) =
    let (to, from) = Fits-cons p u m (length ms) (count_agents (k ∷ ms)) in
    let (each, back) = Fits-each p (created u m) k ms in
    let split = count_agents-cons m (k ∷ ms) in
    (
      λ f. let (one, rest) = to (rw (← split) f) in ((single_Fits p u m).1 one, each rest),
      λ e. rw split (from ((single_Fits p u m).0 e.0, back e.1)),
    )

-- CheckBulk passes a batch that is not empty exactly when its sandboxes, created one after the other
-- by the same user, each pass the sandbox-count quotas of Check.
pub check_bulk_iff_each :
    (p : Policy) (u : Usage) (m : Mode) (ms : List Mode)
    → (check_bulk p u (length (m ∷ ms)) (count_agents (m ∷ ms)) ≡ []) ↔ AdmitsEach p u (m ∷ ms)
check_bulk_iff_each p u m ms =
    let (to, from) = bulk_Fits p u (length (m ∷ ms)) (count_agents (m ∷ ms)) in
    let (each, back) = Fits-each p u m ms in (λ e. each (to e), λ a. from (back a))
