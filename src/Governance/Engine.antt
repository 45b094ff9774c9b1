-- ===== src/Governance/Engine.antt =====
-- pkg/governance/engine.go: the checks of a proposed sandbox against a policy. A violation is its
-- code; the message, which is for people, is left out.
pub mod Admission
pub mod Bulk
pub mod Concurrency
use text.Mathlib.Text.{starts_with}
use agenttier.Prelude.{
  ℕ, ◌+◌, ◌-◌, ◌%◌, ◌^◌, ltb, String, Bool, true, false, not, ◌&&◌, ◌||◌, Option, none, some,
}
use agenttier.Prelude.{List, [], ◌∷◌, ◌++◌, any, is_empty, if◌then◌else◌, str_eq}
use agenttier.Prelude.Int.{ℤ, pos, negsuc, ltb_ℤ, leb_ℤ, is_zero_ℤ}
use agenttier.Governance.Policy.{Policy, Usage, Mode, is_agent}

pub data Violation : Type 0 where
  template_not_allowed image_registry_not_approved namespace_quota_exceeded : Violation
  user_quota_exceeded agent_sandbox_quota_exceeded agent_image_not_approved : Violation
  cpu_limit_exceeded memory_limit_exceeded storage_limit_exceeded : Violation
  timeout_exceeded idle_timeout_exceeded : Violation

-- What the checks use of k8s.io/apimachinery's resource.Quantity and of the package time. `none` is
-- a parse error.
pub record Formats : Type 1 where
  pub Quantity : Type 0
  pub parse_quantity : String → Option Quantity
  pub greater : Quantity → Quantity → Bool
  pub is_zero : Quantity → Bool
  pub parse_duration : String → Option ℤ

abbrev pub contains : List String → String → Bool
contains list v = any (λ item. str_eq item v) list

abbrev pub has_registry_prefix : String → List String → Bool
has_registry_prefix image registries =
    any (λ prefix. not (str_eq prefix "") && starts_with image prefix) registries

-- `if cond { out = append(out, v) }`
abbrev pub report : Bool → Violation → List Violation
report cond v = if cond then v ∷ [] else []

-- An optional value on which a test is made: absent, the test does not run.
abbrev pub holds_of {ℓ} : {A : Type ℓ} → Option A → (A → Bool) → Bool
holds_of none test = false
holds_of (some a) test = test a

-- `len(policy.AllowedTemplates) > 0 && … !contains(…)`
abbrev pub template_denied : Policy → Option String → Bool
template_denied policy template_ref =
    not (is_empty policy.allowed_templates)
    && holds_of template_ref (λ name. not (contains policy.allowed_templates name))

-- An image override outside a list of prefixes that is not empty.
abbrev pub image_denied : List String → Option String → Bool
image_denied prefixes image =
    not (is_empty prefixes)
    && holds_of image
        (λ repository. not (str_eq repository "") && not (has_registry_prefix repository prefixes))

-- A cap that is positive and reached by `used`.
abbrev pub reached : ℤ → ℕ → Bool
reached cap used = ltb_ℤ (pos 0) cap && leb_ℤ cap (pos used)

-- The three sandbox-count quotas of Check.
unfoldable pub count_violations : Policy → Usage → Mode → List Violation
count_violations policy usage mode =
    report (reached policy.max_sandboxes_total usage.total_sandboxes) namespace_quota_exceeded
    ++ (report (reached policy.max_sandboxes_per_user usage.user_sandboxes) user_quota_exceeded
        ++ report (is_agent mode && reached policy.max_agent_sandboxes usage.agent_sandboxes)
            agent_sandbox_quota_exceeded)

-- A cap that is positive and passed by `used`.
abbrev pub passed : ℤ → ℕ → Bool
passed cap used = ltb_ℤ (pos 0) cap && ltb_ℤ cap (pos used)

-- CheckBulk for `n` sandboxes, `agent_n` of them in agent mode.
unfoldable pub check_bulk : Policy → Usage → ℕ → ℕ → List Violation
check_bulk policy usage n agent_n =
    report (passed policy.max_sandboxes_total (usage.total_sandboxes + n)) namespace_quota_exceeded
    ++ (report (passed policy.max_sandboxes_per_user (usage.user_sandboxes + n)) user_quota_exceeded
        ++ report
            (ltb 0 agent_n && passed policy.max_agent_sandboxes (usage.agent_sandboxes + agent_n))
            agent_sandbox_quota_exceeded)

-- `int32(n)` of an `int` wraps around.
abbrev pub to_int32 : ℤ → ℤ
to_int32 (pos n) = let m = n % 2 ^ 32 in if ltb m (2 ^ 31) then pos m else negsuc (2 ^ 32 - m - 1)
to_int32 (negsuc n) =
    let m = n % 2 ^ 32 in if ltb m (2 ^ 31) then negsuc m else pos (2 ^ 32 - m - 1)

unfoldable pub clamp_concurrency : Policy → ℤ → ℤ
clamp_concurrency policy requested =
    let ceiling = to_int32 policy.max_concurrent_invokes_per_sandbox in
    if leb_ℤ policy.max_concurrent_invokes_per_sandbox (pos 0)
    then requested
    else (if is_zero_ℤ requested || ltb_ℤ ceiling requested then ceiling else requested)

module _ (formats : Formats) where
  open formats use {Quantity, parse_quantity, greater, is_zero, parse_duration}

  -- The fields of `sandbox.Spec` that the checks read. A limit is absent if `Resources` is nil or the
  -- key is not in its map.
  pub record Spec : Type 0 where
    pub template_ref : Option String
    pub image : Option String
    pub mode : Mode
    pub cpu_limit : Option Quantity
    pub memory_limit : Option Quantity
    pub storage_size : Option Quantity
    pub timeout : Option ℤ
    pub idle_timeout : Option ℤ

  -- A cap that does not parse lets everything pass.
  abbrev pub exceeds_quantity : Quantity → String → Bool
  exceeds_quantity got cap_str = holds_of (parse_quantity cap_str) (λ cap_q. greater got cap_q)

  -- A sandbox's 0 means no timeout, and exceeds every cap.
  abbrev pub exceeds_duration : ℤ → String → Bool
  exceeds_duration got cap_str =
      holds_of (parse_duration cap_str) (λ limit. if is_zero_ℤ got then true else ltb_ℤ limit got)

  -- A cap text that is set, and a value over it.
  abbrev pub over_quantity : String → Option Quantity → Bool
  over_quantity cap value = not (str_eq cap "") && holds_of value (λ got. exceeds_quantity got cap)

  abbrev pub over_duration : String → Option ℤ → Bool
  over_duration cap value = not (str_eq cap "") && holds_of value (λ got. exceeds_duration got cap)

  unfoldable pub check_resource_limits : Policy → Spec → List Violation
  check_resource_limits policy spec =
      report (over_quantity policy.max_cpu spec.cpu_limit) cpu_limit_exceeded
      ++ (report (over_quantity policy.max_memory spec.memory_limit) memory_limit_exceeded
          ++ (report
                (not (str_eq policy.max_storage "")
                  && holds_of spec.storage_size
                      (λ size. not (is_zero size) && exceeds_quantity size policy.max_storage))
                storage_limit_exceeded
              ++ (report (over_duration policy.max_timeout spec.timeout) timeout_exceeded
                  ++ report (over_duration policy.max_idle_timeout spec.idle_timeout)
                      idle_timeout_exceeded)))

  unfoldable pub check : Policy → Usage → Spec → List Violation
  unfolding count_violations check_resource_limits
  check policy usage spec =
      report (template_denied policy spec.template_ref) template_not_allowed
      ++ (report (image_denied policy.approved_registries spec.image) image_registry_not_approved
          ++ (count_violations policy usage spec.mode
              ++ (report (is_agent spec.mode && image_denied policy.allowed_agent_images spec.image)
                    agent_image_not_approved
                  ++ check_resource_limits policy spec)))
