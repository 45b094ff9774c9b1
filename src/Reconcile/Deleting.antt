-- ===== src/Reconcile/Deleting.antt =====
-- The finalizer and the cleanup that it stands for.
use Prim.Native.String
use agenttier.Prelude.{
  String, Bool, true, false, List, [], ◌∷◌, ◌≡◌, ◌≢◌, ◌∙◌, ◌⊎◌, arith, eq_iff, eq_refl, str_eq,
}
use agenttier.Reconcile.World.{
  Sandbox, Call, must_be_gone, delete_pvc, delete_network_policy, get_secret, get_key_record,
  delete_key_record, Verdict, ok, refused, found, Env, World, done,
}
use agenttier.Reconcile.Handlers.{delete_pod_of}
use agenttier.Reconcile.Cleanup.{
  delete_volume_of, revoke_sandbox_api_key, release, reconcile_delete, scoped_key_secret_name,
  secret_name_for_hash,
}
use agenttier.Reconcile.Stopping.{start, deletes_pod}

-- A deletion that was carried out, or found nothing to delete.
abbrev pub is_gone : Verdict → Bool
is_gone refused = false
is_gone _ = true

-- In a log, newest first, the call was made, and answered that what it deletes is gone.
abbrev pub Gone : Env → (Call → Bool) → List Call → Type 0
Gone env test [] = ⊥
Gone env test (c ∷ log) =
    ((test c ≡ true) × (is_gone (env.verdict log c) ≡ true)) ⊎ Gone env test log

abbrev pub deletes_volume_named : String → Call → Bool
deletes_volume_named name (delete_pvc p) = str_eq p name
deletes_volume_named name _ = false

abbrev pub deletes_policy : String → Call → Bool
deletes_policy name (delete_network_policy p) = str_eq p name
deletes_policy name _ = false

-- A step that deletes: it goes on or fails, and keeps the sandboxes and what is gone already.
abbrev Deletes : Env → World → World → Type 0
Deletes env w v = (v.sandbox ≡ w.sandbox) × (v.stored ≡ w.stored)

pod_step :
    (env : Env) (sb : Sandbox) (w : World)
    → let out = delete_pod_of env sb w in
      Deletes env w out.1
      × (out.0 ≡ done tt
          → sb.status.pod_name ≢ ""
          → Gone env (deletes_pod sb.status.pod_name) out.1.log)
unfolding delete_pod_of
pod_step env sb w = ground (arith, eq_iff sb.status.pod_name "", eq_refl sb.status.pod_name)

volume_step :
    (env : Env) (sb : Sandbox) (test : Call → Bool) (w : World)
    → let out = delete_volume_of env sb w in
      Deletes env w out.1
      × (out.0 ≡ done tt
          → sb.status.pvc_name ≢ ""
          → Gone env (deletes_volume_named sb.status.pvc_name) out.1.log)
      × (Gone env test w.log → Gone env test out.1.log)
unfolding delete_volume_of
volume_step env sb test w = ground (arith, eq_iff sb.status.pvc_name "", eq_refl sb.status.pvc_name)

policy_step :
    (env : Env) (name : String) (test : Call → Bool) (w : World)
    → let out = must_be_gone env (delete_network_policy name) w in
      Deletes env w out.1
      × (out.0 ≡ done tt → Gone env (deletes_policy name) out.1.log)
      × (Gone env test w.log → Gone env test out.1.log)
policy_step env name test w = ground (arith, eq_refl name)

abbrev pub deletes_key : String → Call → Bool
deletes_key name (delete_key_record r) = str_eq r name
deletes_key name _ = false

-- The name of the hashed record behind a key.
abbrev pub record_name : Env → String → String
record_name env key = secret_name_for_hash (env.hash_api_key key)

revoke_step :
    (env : Env) (test : Call → Bool) (w : World)
    → let out = revoke_sandbox_api_key env w in
      Deletes env w out.1 × (Gone env test w.log → Gone env test out.1.log)
unfolding revoke_sandbox_api_key
revoke_step env test w = ground arith

revoke_deletes :
    (env : Env) (key : String) (w : World)
    → (revoke_sandbox_api_key env w).0 ≡ done tt
    → env.find_key w.log (scoped_key_secret_name w.sandbox.name) ≡ found key
    → key ≢ ""
    → ((log : List Call) → env.verdict log (get_key_record (record_name env key)) ≡ ok)
    → Gone env (deletes_key (record_name env key)) (revoke_sandbox_api_key env w).1.log
unfolding revoke_sandbox_api_key
revoke_deletes env key w fine there real stored = ground (
  arith,
  eq_iff key "",
  eq_refl (record_name env key),
  stored (get_secret (scoped_key_secret_name w.sandbox.name) ∷ w.log),
)

release_step :
    (env : Env) (test : Call → Bool) (w : World)
    → let out = release env w in
      ((out.1.stored ≡ w.stored)
        ⊎ (out.1.stored ≡ record (w.sandbox) { finalizer = false; status = w.stored.status }))
      × (Gone env test w.log → Gone env test out.1.log)
unfolding release
release_step env test w = ground arith

abbrev policy_name : Sandbox → String
policy_name sb = String.◌++◌ sb.name "-netpol"

module _ (env : Env) (sb : Sandbox) where
  abbrev pod_gone : World
  pod_gone = (delete_pod_of env sb (start sb)).1

  abbrev volume_gone : World
  volume_gone = (delete_volume_of env sb pod_gone).1

  abbrev policy_gone : World
  policy_gone = (must_be_gone env (delete_network_policy (policy_name sb)) volume_gone).1

  abbrev key_gone : World
  key_gone = (revoke_sandbox_api_key env policy_gone).1

  any_test : Call → Bool
  any_test c = false

  -- Only a cleanup whose four steps all went well reaches the release.
  went_through :
      sb.finalizer ≡ true
      → (reconcile_delete env (start sb)).1.stored.finalizer ≡ false
      → ((delete_pod_of env sb (start sb)).0 ≡ done tt)
        × ((delete_volume_of env sb pod_gone).0 ≡ done tt)
        × ((must_be_gone env (delete_network_policy (policy_name sb)) volume_gone).0 ≡ done tt)
        × ((revoke_sandbox_api_key env policy_gone).0 ≡ done tt)
        × ((reconcile_delete env (start sb)).1 ≡ (release env key_gone).1)
  unfolding reconcile_delete
  went_through held freed = ground (
    arith,
    pod_step env sb (start sb),
    volume_step env sb any_test pod_gone,
    policy_step env (policy_name sb) any_test volume_gone,
    revoke_step env any_test policy_gone,
  )

-- The finalizer comes off a stored sandbox only once its pod, its volume and its network policy are
-- gone: each deletion was asked for, where there is something to delete, and not refused. And where
-- the sandbox has a scoped API key whose hashed record the API server has, that record is gone too.
pub reconcile_delete-Gone :
    (env : Env) (sb : Sandbox)
    → sb.finalizer ≡ true
    → let out = (reconcile_delete env (start sb)).1 in
      out.stored.finalizer ≡ false
      → (sb.status.pod_name ≢ "" → Gone env (deletes_pod sb.status.pod_name) out.log)
        × (sb.status.pvc_name ≢ "" → Gone env (deletes_volume_named sb.status.pvc_name) out.log)
        × Gone env (deletes_policy (String.◌++◌ sb.name "-netpol")) out.log
        × ((key : String)
            → ((log : List Call) → env.find_key log (scoped_key_secret_name sb.name) ≡ found key)
            → key ≢ ""
            → ((log : List Call) → env.verdict log (get_key_record (record_name env key)) ≡ ok)
            → Gone env (deletes_key (record_name env key)) out.log)
reconcile_delete-Gone env sb held freed =
    let (p, v, n, k, ends) = went_through env sb held freed in
    let w1 = pod_gone env sb in
    let w2 = volume_gone env sb in
    let w3 = policy_gone env sb in
    let w4 = key_gone env sb in
    let pod = deletes_pod sb.status.pod_name in
    let volume = deletes_volume_named sb.status.pvc_name in
    let policy = deletes_policy (policy_name sb) in
    let memory : w3.sandbox ≡ sb =
      (policy_step env (policy_name sb) pod w2).0.0
      ∙ ((volume_step env sb pod w1).0.0 ∙ (pod_step env sb (start sb)).0.0) in
    rw ends (
      λ named. (release_step env pod w4).1 (
          (revoke_step env pod w3).1 (
            (policy_step env (policy_name sb) pod w2).2
              ((volume_step env sb pod w1).2 ((pod_step env sb (start sb)).1 p named)))),
      λ named. (release_step env volume w4).1 (
          (revoke_step env volume w3).1 (
            (policy_step env (policy_name sb) volume w2).2
              ((volume_step env sb volume w1).1 v named))),
      (release_step env policy w4).1
          ((revoke_step env policy w3).1 ((policy_step env (policy_name sb) policy w2).1 n)),
      λ key there real stored.
          (release_step env (deletes_key (record_name env key)) w4).1
            (revoke_deletes env key w3 k (rw memory (there w3.log)) real stored),
    )
