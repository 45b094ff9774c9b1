-- ===== src/Reconcile/World.antt =====
-- The world of one reconcile: the sandbox in memory, the copy that the API server stores, and the
-- calls made. What the API server, the clock and the formatting functions answer is `Env`.
use agenttier.Prelude.{ℕ, String, Bool, true, false, Option, List, ◌∷◌, Text}
use agenttier.Prelude.Int.{ℤ, pos}
use agenttier.Lifecycle.Phase.{Phase}
use agenttier.Reconcile.Pods.{Pod}

-- The fields of SandboxStatus that the handlers below read or write.
pub record Status : Type 0 where
  pub phase : Phase
  pub pod_name : String
  pub pvc_name : String
  pub started_at : Option ℕ
  pub last_activity : Option ℕ
  pub restart_count : ℕ
  pub message : Text

-- `action` is the annotation agenttier.io/action, `snapshot` the flag of `Spec.Storage` if that is
-- set, `finalizer` whether FinalizerName is on the object.
pub record Sandbox : Type 0 where
  pub name : String
  pub idle_timeout : Option ℤ
  pub timeout : Option ℤ
  pub snapshot : Option Bool
  pub action : Option String
  pub finalizer : Bool
  pub status : Status

pub data Call : Type 0 where
  update_status update_object create_snapshot notify : Call
  claim_pod ensure_runtime_token ensure_api_key ensure_volume ensure_network_policy : Call
  get_pod get_pvc delete_pod create_pod delete_pvc delete_network_policy : String → Call
  get_secret get_key_record delete_key_record record_event update_pod update_pvc : String → Call

pub data Verdict : Type 0 where
  ok not_found refused : Verdict

pub data Fetch {ℓ} (A : Type ℓ) : Type ℓ where
  found : A → Fetch A
  missing unreachable : Fetch A

-- Each answer may depend on all calls made so far, newest first. `resolved_snapshot` is the flag of
-- the resolved template's storage, if the template resolves and has a storage.
pub record Env : Type 0 where
  pub verdict : List Call → Call → Verdict
  pub find_pod : List Call → String → Fetch Pod
  pub find_key : List Call → String → Fetch String
  pub now : List Call → ℕ
  pub resolved_snapshot : Option Bool
  pub show_duration : ℤ → Text
  pub show_int : ℕ → Text
  pub hash_api_key : String → String

pub record World : Type 0 where
  pub sandbox : Sandbox
  pub stored : Sandbox
  pub log : List Call

-- ctrl.Result
pub record Result : Type 0 where
  pub requeue : Bool
  pub requeue_after : ℤ

abbrev pub no_requeue : Result
no_requeue = record { requeue = false; requeue_after = pos 0 }

abbrev pub requeue_now : Result
requeue_now = record { requeue = true; requeue_after = pos 0 }

abbrev pub after : ℤ → Result
after d = record { requeue = false; requeue_after = d }

pub data Exit {ℓ} (A : Type ℓ) : Type ℓ where
  done : A → Exit A
  failed : Exit A

abbrev pub M : Type 0 → Type 0
M A = World → Exit A × World

abbrev pub bind_exit : {A B : Type 0} → Exit A × World → (A → M B) → Exit B × World
bind_exit (done a, w) f = f a w
bind_exit (failed, w) f = (failed, w)

infixl 5 ◌>>=◌ ◌>>◌
abbrev pub ◌>>=◌ : {A B : Type 0} → M A → (A → M B) → M B
◌>>=◌ m f w = bind_exit (m w) f

abbrev pub ◌>>◌ : {B : Type 0} → M (Unit {0}) → M B → M B
◌>>◌ m k = m >>= λ _. k

abbrev pub return : {A : Type 0} → A → M A
return a w = (done a, w)

abbrev pub fail : {A : Type 0} → M A
fail w = (failed, w)

abbrev pub set_status : (Status → Status) → M (Unit {0})
set_status f w =
    (done tt, record w { sandbox = record (w.sandbox) { status = f w.sandbox.status } })

abbrev pub set_sandbox : (Sandbox → Sandbox) → M (Unit {0})
set_sandbox f w = (done tt, record w { sandbox = f w.sandbox })

-- What a write that succeeds leaves on the API server. The status is a subresource: a status update
-- writes it alone, and an update of the object writes all but the status.
abbrev pub written : Call → Sandbox → Sandbox → Sandbox
written update_status mem old = record old { status = mem.status }
written update_object mem old = record mem { status = old.status }
written _ mem old = old

abbrev pub after_verdict : Verdict → Call → World → World
after_verdict ok c w = record w { stored = written c w.sandbox w.stored; log = c ∷ w.log }
after_verdict _ c w = record w { log = c ∷ w.log }

-- The error is returned as it is.
abbrev must_exit : Verdict → Exit (Unit {0})
must_exit ok = done tt
must_exit _ = failed

-- Not found counts as done.
abbrev gone_exit : Verdict → Exit (Unit {0})
gone_exit refused = failed
gone_exit _ = done tt

module _ (env : Env) where
  abbrev pub must : Call → M (Unit {0})
  must c w = let v = env.verdict w.log c in (must_exit v, after_verdict v c w)

  abbrev pub must_be_gone : Call → M (Unit {0})
  must_be_gone c w = let v = env.verdict w.log c in (gone_exit v, after_verdict v c w)

  -- A call whose outcome is only logged.
  abbrev pub try_call : Call → M (Unit {0})
  try_call c w = let v = env.verdict w.log c in (done tt, after_verdict v c w)

  abbrev pub read_clock : M ℕ
  read_clock w = (done (env.now w.log), w)

  abbrev pub fetch_pod : String → M (Fetch Pod)
  fetch_pod name w = (done (env.find_pod w.log name), record w { log = get_pod name ∷ w.log })

  abbrev pub fetch_key : String → M (Fetch String)
  fetch_key name w = (done (env.find_key w.log name), record w { log = get_secret name ∷ w.log })
