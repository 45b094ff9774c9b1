-- ===== src/Reconcile/Manual/Outcomes.antt =====
-- What StopSandbox and ResumeSandbox leave behind.
use agenttier.Prelude.{
  ℕ, true, some, [], ◌∷◌, if◌then◌else◌, any, ◌≡◌, ◌≢◌, ◌⊎◌, arith, eq_iff, eq_refl, str_eq, Text,
  codes,
}
use agenttier.Lifecycle.Phase.{creating, is_running, is_resumable}
use agenttier.Reconcile.World.{Status, Sandbox, get_pvc, Env, done, failed}
use agenttier.Reconcile.Handlers.{stopped_status}
use agenttier.Reconcile.Stopping.{start, deletes_pod}
use agenttier.Reconcile.Manual.{manual_stop, manual_resume}

-- StopSandbox either fails and leaves what is stored, or the sandbox was running and is stored as
-- Stopped with the reason and no pod, and the deletion of its pod was asked for if it had one.
pub manual_stop_lem :
    (env : Env) (reason : Text) (sb : Sandbox)
    → let out = manual_stop env reason (start sb) in
      ((out.0 ≡ done tt)
        × (is_running sb.status.phase ≡ true)
        × (out.1.stored ≡ record sb { status = stopped_status reason sb.status })
        × (sb.status.pod_name ≢ "" → any (deletes_pod sb.status.pod_name) out.1.log ≡ true))
      ⊎ ((out.0 ≡ failed) × (out.1.stored ≡ sb))
unfolding manual_stop
manual_stop_lem env reason sb =
    ground (arith, eq_iff sb.status.pod_name "", eq_refl sb.status.pod_name)

-- The status of a sandbox that is resumed at `t`.
abbrev pub resumed_status : ℕ → Status → Status
resumed_status t s = record s { phase = creating; message = codes "Resuming"; started_at = some t }

-- The clock's reading once the volume has been looked up.
abbrev pub resumed_at : Env → Sandbox → ℕ
resumed_at env sb =
    env.now (if str_eq sb.status.pvc_name "" then [] else get_pvc sb.status.pvc_name ∷ [])

-- ResumeSandbox either fails and leaves what is stored, or the sandbox was Stopped or in Error and is
-- stored as Creating with the current time as its start; all else of it stays, its restart count included.
pub manual_resume_lem :
    (env : Env) (sb : Sandbox)
    → let out = manual_resume env (start sb) in
      ((out.0 ≡ done tt)
        × (is_resumable sb.status.phase ≡ true)
        × (out.1.stored ≡ record sb { status = resumed_status (resumed_at env sb) sb.status }))
      ⊎ ((out.0 ≡ failed) × (out.1.stored ≡ sb))
unfolding manual_resume
manual_resume_lem env sb = ground arith
