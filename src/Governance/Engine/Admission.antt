-- ===== src/Governance/Engine/Admission.antt =====
-- What a sandbox that Check admits keeps to.
use mathlib.Core.List.{Memᴰ}
use text.Mathlib.Text.{starts_with}
use agenttier.Prelude.{
  ℕ, String, Bool, true, false, not, ◌&&◌, Option, some, List, [], ◌∷◌, ◌++◌, is_empty, ◌≡◌, ◌≢◌,
  refl, sym, ◌⊎◌, inl, inr, arith, eq_iff, str_eq, Bool-cases,
}
use agenttier.Prelude.Int.{ℤ, pos, ◌≤ℤ◌, ◌<ℤ◌}
use agenttier.Governance.Policy.{Policy, Usage, agent, is_agent}
use agenttier.Governance.Engine.{
  Violation, template_not_allowed, image_registry_not_approved, namespace_quota_exceeded,
  user_quota_exceeded, agent_image_not_approved, cpu_limit_exceeded, memory_limit_exceeded,
  storage_limit_exceeded, timeout_exceeded, Formats, contains, has_registry_prefix, report,
  holds_of, reached, template_denied, image_denied, count_violations, Spec, over_quantity,
  over_duration, exceeds_quantity, check_resource_limits, check,
}

report-nil :
    (c : Bool) (v : Violation) (rest : List Violation)
    → report c v ++ rest ≡ []
    → (c ≡ false) × (rest ≡ [])
report-nil true v rest h = cc
report-nil false v rest h = (refl, h)

append-nil_parts {ℓ} : {A : Type ℓ} (xs ys : List A) → xs ++ ys ≡ [] → (xs ≡ []) × (ys ≡ [])
append-nil_parts [] ys h = (refl, h)
append-nil_parts (x ∷ xs) ys h = cc

contains→Mem : (list : List String) (v : String) → contains list v ≡ true → Memᴰ v list
contains→Mem [] v h = cc
contains→Mem (x ∷ list) v h = elim (Bool-cases (str_eq x v)) [
  | inl same ↦ Memᴰ.head (sym ((eq_iff x v).0 same))
  | inr other ↦ Memᴰ.tail (contains→Mem list v (ground arith))
]

-- The image starts with a prefix of the list that is not empty.
abbrev pub Approved : List String → String → Type 0
Approved prefixes image =
    (prefix : String) × Memᴰ prefix prefixes × (prefix ≢ "") × (starts_with image prefix ≡ true)

prefix→Approved :
    (prefixes : List String) (image : String)
    → has_registry_prefix image prefixes ≡ true
    → Approved prefixes image
prefix→Approved [] image h = cc
prefix→Approved (p ∷ ps) image h = elim (Bool-cases (not (str_eq p "") && starts_with image p)) [
  | inl hit ↦ (p, Memᴰ.head refl, ground (arith, eq_iff p ""), ground arith)
  | inr miss ↦
      let (q, m, named, starts) = prefix→Approved ps image (ground arith) in
      (q, Memᴰ.tail m, named, starts)
]

template_allowed :
    (policy : Policy) (name : String)
    → template_denied policy (some name) ≡ false
    → (policy.allowed_templates ≡ []) ⊎ Memᴰ name policy.allowed_templates
template_allowed policy name h = elim (Bool-cases (is_empty policy.allowed_templates)) [
  | inl e ↦ inl (ground arith)
  | inr n ↦ inr (contains→Mem policy.allowed_templates name (ground arith))
]

image_allowed :
    (prefixes : List String) (image : String)
    → image_denied prefixes (some image) ≡ false
    → (prefixes ≡ []) ⊎ ((image ≡ "") ⊎ Approved prefixes image)
image_allowed prefixes image h = elim (Bool-cases (is_empty prefixes)) [
  | inl e ↦ inl (ground arith)
  | inr n ↦ inr (elim (Bool-cases (str_eq image "")) [
    | inl e ↦ inl ((eq_iff image "").0 e)
    | inr m ↦ inr (prefix→Approved prefixes image (ground arith))
  ])
]

-- Room for one more under a cap, if it is a cap at all.
abbrev pub HasRoom : ℤ → ℕ → Type 0
HasRoom cap used = pos 0 <ℤ cap → pos used <ℤ cap

module _ (formats : Formats) where
  open formats use {Quantity, parse_quantity, greater, is_zero, parse_duration}

  -- A value that is given is not over a cap that parses.
  abbrev pub QuantityWithin : String → Option Quantity → Type 0
  QuantityWithin cap value =
      (q c : Quantity)
      → value ≡ some q
      → cap ≢ ""
      → parse_quantity cap ≡ some c
      → greater q c ≡ false

  -- A timeout that is given is a real one, at most the cap.
  abbrev pub DurationWithin : String → Option ℤ → Type 0
  DurationWithin cap value =
      (d c : ℤ) → value ≡ some d → cap ≢ "" → parse_duration cap ≡ some c → (d ≢ pos 0) × (d ≤ℤ c)

  pub record Admissible (policy : Policy) (usage : Usage) (spec : Spec formats) : Type 0 where
    pub template :
        (name : String)
        → spec.template_ref ≡ some name
        → (policy.allowed_templates ≡ []) ⊎ Memᴰ name policy.allowed_templates
    pub image :
        (i : String)
        → spec.image ≡ some i
        → (policy.approved_registries ≡ []) ⊎ ((i ≡ "") ⊎ Approved policy.approved_registries i)
    pub total : HasRoom policy.max_sandboxes_total usage.total_sandboxes
    pub user : HasRoom policy.max_sandboxes_per_user usage.user_sandboxes
    pub agents : spec.mode ≡ agent → HasRoom policy.max_agent_sandboxes usage.agent_sandboxes
    pub agent_image :
        (i : String)
        → spec.mode ≡ agent
        → spec.image ≡ some i
        → (policy.allowed_agent_images ≡ []) ⊎ ((i ≡ "") ⊎ Approved policy.allowed_agent_images i)
    pub cpu : QuantityWithin policy.max_cpu spec.cpu_limit
    pub memory : QuantityWithin policy.max_memory spec.memory_limit
    pub storage :
        (q c : Quantity)
        → spec.storage_size ≡ some q
        → is_zero q ≡ false
        → policy.max_storage ≢ ""
        → parse_quantity policy.max_storage ≡ some c
        → greater q c ≡ false
    pub timeout : DurationWithin policy.max_timeout spec.timeout
    pub idle_timeout : DurationWithin policy.max_idle_timeout spec.idle_timeout

  quantity_within :
      (cap : String) (value : Option Quantity)
      → over_quantity formats cap value ≡ false
      → QuantityWithin cap value
  quantity_within cap value h q c e named parsed = ground (arith, eq_iff cap "")

  duration_within :
      (cap : String) (value : Option ℤ)
      → over_duration formats cap value ≡ false
      → DurationWithin cap value
  duration_within cap value h d c e named parsed =
      (ground (arith, eq_iff cap ""), ground (arith, eq_iff cap ""))

  has_room : (cap : ℤ) (used : ℕ) → reached cap used ≡ false → HasRoom cap used
  has_room cap used h = ground arith

  -- A sandbox that Check admits keeps to every limit of the policy: its template and its images are
  -- allowed, there is room under each sandbox quota that applies, and each CPU, memory, storage,
  -- timeout and idle timeout that it gives is within the cap, where the cap's text parses. A timeout
  -- of 0, which is none at all, is within no cap.
  pub check-Admissible :
      (policy : Policy) (usage : Usage) (spec : Spec formats)
      → check formats policy usage spec ≡ []
      → Admissible policy usage spec
  unfolding check count_violations check_resource_limits
  check-Admissible policy usage spec h =
      let (a, h1) =
        report-nil (template_denied policy spec.template_ref) template_not_allowed _ h in
      let (b, h2) =
        report-nil (image_denied policy.approved_registries spec.image) image_registry_not_approved
          _ h1 in
      let (counts, h3) = append-nil_parts (count_violations policy usage spec.mode) _ h2 in
      let (c, k1) =
        report-nil (reached policy.max_sandboxes_total usage.total_sandboxes)
          namespace_quota_exceeded _ counts in
      let (d, k2) =
        report-nil (reached policy.max_sandboxes_per_user usage.user_sandboxes) user_quota_exceeded
          _ k1 in
      let (f, h4) =
        report-nil (is_agent spec.mode && image_denied policy.allowed_agent_images spec.image)
          agent_image_not_approved _ h3 in
      let (g, h5) =
        report-nil (over_quantity formats policy.max_cpu spec.cpu_limit) cpu_limit_exceeded _ h4 in
      let (m, h6) =
        report-nil (over_quantity formats policy.max_memory spec.memory_limit) memory_limit_exceeded
          _ h5 in
      let (s, h7) =
        report-nil
          (not (str_eq policy.max_storage "")
            && holds_of spec.storage_size
                (λ size. not (is_zero size) && exceeds_quantity formats size policy.max_storage))
          storage_limit_exceeded _ h6 in
      let (t, h8) =
        report-nil (over_duration formats policy.max_timeout spec.timeout) timeout_exceeded _ h7 in
      record {
        template = λ name e. template_allowed policy name (rw e at a);
        image = λ i e. image_allowed policy.approved_registries i (rw e at b);
        total = has_room _ _ c;
        user = has_room _ _ d;
        agents = λ e. has_room _ _ (ground arith);
        agent_image = λ i e w. image_allowed policy.allowed_agent_images i (rw (e, w) at f);
        cpu = quantity_within _ _ g;
        memory = quantity_within _ _ m;
        storage = λ q z e k named parsed. ground (arith, eq_iff policy.max_storage "");
        timeout = duration_within _ _ t;
        idle_timeout = duration_within _ _ (ground arith);
      }
