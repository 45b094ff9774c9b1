-- ===== src/Reconcile/Manual.antt =====
-- StopSandbox and ResumeSandbox of pkg/controller/lifecycle.go.
pub mod Outcomes
use agenttier.Prelude.{not, some, codes, if◌then◌else◌, str_eq, Text}
use agenttier.Lifecycle.Phase.{creating, is_running, is_resumable}
use agenttier.Reconcile.World.{
  Sandbox, update_status, get_pvc, delete_pod, record_event, Env, done, M, ◌>>=◌, ◌>>◌, return,
  fail, set_status, must, must_be_gone, try_call, read_clock,
}
use agenttier.Reconcile.Handlers.{stopped_status, the_sandbox}

module _ (env : Env) where
  unfoldable pub manual_stop : Text → M (Unit {0})
  manual_stop reason = do
    sb ← the_sandbox
    if not (is_running sb.status.phase) then fail else (do
      (if str_eq sb.status.pod_name ""
          then return tt
          else must_be_gone env (delete_pod sb.status.pod_name))
      set_status (stopped_status reason)
      must env update_status
      try_call env (record_event "Stopped"))

  unfoldable pub manual_resume : M (Unit {0})
  manual_resume = do
    sb ← the_sandbox
    if not (is_resumable sb.status.phase) then fail else (do
      (if str_eq sb.status.pvc_name "" then return tt else must env (get_pvc sb.status.pvc_name))
      now ← read_clock env
      set_status
          (λ s. record s { phase = creating; message = codes "Resuming"; started_at = some now })
      must env update_status
      try_call env (record_event "Resumed"))
