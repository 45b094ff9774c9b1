-- ===== src/Agent/Invoke/Paths.antt =====
-- The ways through handleInvoke of pkg/router/agent/invoke.go.
use agenttier.Prelude.{
  ℕ, ◌+◌, ◌-◌, ◌≤◌, ◌<◌, String, true, false, ◌&&◌, Option, none, some, List, [], ◌∷◌, ◌≡◌, refl,
  subst, ◌∙◌, arith, ltb, str_eq, eq_iff, eq_refl, length, Bool-cases, name_cases, inl, inr,
}
use agenttier.Prelude.Int.{ℤ, pos, ltb_ℤ, leb_ℤ}
use agenttier.Agent.Invoke.{
  AgentConfigure, Sandbox, Request, Env, max_body_bytes, resolve_concurrency_limit,
  configured_timeout, lowered, resolve_invoke_timeout, has_no_entrypoint, invoke_guards, argv_of,
  stdin_of, run_command, audit_reason, placed, guarded, handle_invoke,
}
use agenttier.Agent.Quote.{build_invoke_command}
use agenttier.Agent.Tracker.{Counts, count_of, try, release}
use agenttier.Agent.Tracker.Counts.{written}
use agenttier.Keys.Maps.{set_at}

released :
    (counts : Counts) (k q : String)
    → count_of (release (set_at k (count_of counts k + 1) counts) k) q ≡ count_of counts q
unfolding release
released counts k q =
    let m = set_at k (count_of counts k + 1) counts in
    let own : count_of m k ≡ count_of counts k + 1 =
      written counts k k (count_of counts k + 1) ∙ rw (eq_refl k) refl in
    let positive : ltb 0 (count_of m k) ≡ true = ground (arith, own) in
    rw positive (
      written m k q (count_of m k - 1) ∙ elim (name_cases k q) [
        | inl same ↦
            rw ((eq_iff k q).1 same)
              (subst (λ x. count_of m k - 1 ≡ count_of counts x) same (omega (arith, own)))
        | inr other ↦ rw other (written counts k q (count_of counts k + 1) ∙ rw other refl)
      ])

placed-count :
    (env : Env) (sb : Sandbox) (req : Request) (counts : Counts) (limit : ℤ) (q : String)
    → count_of (placed env sb req (try counts sb.name limit)).1 q ≡ count_of counts q
unfolding try
placed-count env sb req counts limit q =
    elim (Bool-cases (ltb_ℤ (pos 0) limit && leb_ℤ limit (pos (count_of counts sb.name)))) [
      | inl full ↦ rw full refl
      | inr place ↦ rw place (released counts sb.name q)
    ]

guarded-count :
    (env : Env) (guard : Option ℕ) (sb : Sandbox) (req : Request) (counts : Counts) (q : String)
    → count_of (guarded env guard sb req counts).1 q ≡ count_of counts q
guarded-count env (some status) sb req counts q = refl
guarded-count env none sb req counts q =
    placed-count env sb req counts (resolve_concurrency_limit sb) q

-- What has to hold for a command to be run, and what is run and recorded.
pub record Ran (env : Env) (sb : Sandbox) (req : Request) (counts : Counts) (exit : ℤ × String)
    (audit : List String) : Type 0 where
  pub agent : sb.mode ≡ "agent"
  pub running : sb.phase ≡ "Running"
  pub configured : has_no_entrypoint sb.agent_configure ≡ false
  pub place :
      (ltb_ℤ (pos 0) (resolve_concurrency_limit sb)
        && leb_ℤ (resolve_concurrency_limit sb) (pos (count_of counts sb.name)))
      ≡ false
  pub body : length req.body ≤ max_body_bytes
  pub command :
      run_command env
        (build_invoke_command (argv_of sb req.prompt))
        (stdin_of req)
        (resolve_invoke_timeout env sb req.timeout)
      ≡ exit
  pub recorded : audit ≡ "AgentInvokeStarted" ∷ audit_reason exit.0 exit.1 ∷ []

-- Whatever becomes of a request to invoke, refused, throttled, cut short or run, the counts of all
-- sandboxes are afterwards what they were.
pub handle_invoke-count :
    (env : Env) (sb : Sandbox) (req : Request) (counts : Counts) (q : String)
    → count_of (handle_invoke env sb req counts).1 q ≡ count_of counts q
unfolding handle_invoke
handle_invoke-count env sb req counts q = guarded-count env (invoke_guards sb) sb req counts q

lowered-le :
    (limit : ℕ) (d : Option ℤ) → 0 < limit → (0 < lowered limit d) × (lowered limit d ≤ limit)
lowered-le limit none h = (h, omega arith)
lowered-le limit (some d) h = (ground arith, ground arith)

configured_timeout-pos : (a : Option AgentConfigure) → 0 < configured_timeout a
configured_timeout-pos none = omega arith
configured_timeout-pos (some a) = ground arith

-- The timeout of an invoke is never zero and never above the one that the sandbox has configured,
-- which is 30 minutes where it configures none.
pub resolve_invoke_timeout-le :
    (env : Env) (sb : Sandbox) (override : String)
    → (0 < resolve_invoke_timeout env sb override)
      × (resolve_invoke_timeout env sb override ≤ configured_timeout sb.agent_configure)
unfolding resolve_invoke_timeout
resolve_invoke_timeout-le env sb override =
    let limit = configured_timeout sb.agent_configure in
    let positive = configured_timeout-pos sb.agent_configure in
    elim (Bool-cases (str_eq override "")) [
      | inl empty ↦ rw empty (positive, omega arith)
      | inr given ↦ rw given (lowered-le limit (env.parse_duration override) positive)
    ]
