-- ===== src/Reconcile/Cleanup.antt =====
-- reconcileDelete of pkg/controller/sandbox_controller.go, and the revocation of a sandbox's key in
-- pkg/controller/scoped_key.go.
use Prim.Native.String
use agenttier.Prelude.{String, false, not}
use agenttier.Prelude.{if◌then◌else◌, ltb, str_eq}
use agenttier.Reconcile.World.{
  Sandbox, update_object, delete_pvc, delete_network_policy, get_key_record, delete_key_record,
  record_event, Verdict, ok, not_found, refused, Fetch, found, missing, unreachable, Env, Result,
  no_requeue, M, ◌>>=◌, ◌>>◌, return, fail, set_sandbox, after_verdict, must, must_be_gone,
  try_call, fetch_key,
}
use agenttier.Reconcile.Handlers.{delete_pod_of, the_sandbox}

-- `scopedKeyPlaintextSecretName`
abbrev pub scoped_key_secret_name : String → String
scoped_key_secret_name name = String.◌++◌ name "-scoped-key"

-- `apikeystore.SecretNameForHash`: the first 40 bytes of the hash behind the prefix.
abbrev pub secret_name_for_hash : String → String
secret_name_for_hash hash =
    String.◌++◌ "agenttier-apikey-"
      (if ltb 40 (String.len hash) then String.slice hash 0 40 else hash)

module _ (env : Env) where
  -- The second half of revokeSandboxAPIKey: the hashed record behind a key, if there still is one.
  abbrev delete_record : String → Verdict → M (Unit {0})
  delete_record name not_found = return tt
  delete_record name refused = fail
  delete_record name ok = must_be_gone env (delete_key_record name)

  abbrev revoke_key : String → M (Unit {0})
  revoke_key key = if str_eq key "" then return tt else λ w.
      let name = secret_name_for_hash (env.hash_api_key key) in
      let v = env.verdict w.log (get_key_record name) in
      delete_record name v (after_verdict v (get_key_record name) w)

  abbrev revoke_found : Fetch String → M (Unit {0})
  revoke_found missing = return tt
  revoke_found unreachable = fail
  revoke_found (found key) = revoke_key key

  unfoldable pub revoke_sandbox_api_key : M (Unit {0})
  revoke_sandbox_api_key = do
    sb ← the_sandbox
    secret ← fetch_key env (scoped_key_secret_name sb.name)
    revoke_found secret

  unfoldable pub delete_volume_of : Sandbox → M (Unit {0})
  delete_volume_of sb =
      if str_eq sb.status.pvc_name ""
      then return tt
      else must_be_gone env (delete_pvc sb.status.pvc_name)

  -- reconcileDelete once all is cleaned up.
  unfoldable pub release : M Result
  release = do
    set_sandbox (λ s. record s { finalizer = false })
    must env update_object
    try_call env (record_event "Deleted")
    return no_requeue

  unfoldable pub reconcile_delete : M Result
  reconcile_delete = do
    sb ← the_sandbox
    if not sb.finalizer then return no_requeue else (do
      delete_pod_of env sb
      delete_volume_of sb
      must_be_gone env (delete_network_policy (String.◌++◌ sb.name "-netpol"))
      revoke_sandbox_api_key
      release)
