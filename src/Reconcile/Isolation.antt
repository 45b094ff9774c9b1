-- ===== src/Reconcile/Isolation.antt =====
-- What pkg/controller/sandbox_controller.go does to a sandbox that is not Running, call by call: whether
-- its network policy has been ensured, and whether a copy of it is Running.
pub mod Pods
pub mod Warm
mod Tests
use agenttier.Prelude.{
  String, Bool, true, false, not, ◌&&◌, List, [], ◌∷◌, ◌≡◌, ◌≢◌, refl, arith, if◌then◌else◌, str_eq,
  Text, codes, ◌⊎◌, inl, inr, Bool-cases, ltb, leb, some, none, Option,
}
use agenttier.Lifecycle.Phase.{Phase, unset, creating, running, error}
use agenttier.Prelude.Int.{pos}
use agenttier.Lifecycle.Timeouts.{default_requeue_delay}
use agenttier.Reconcile.Creating.{
  pod_created, make_pod, pod_started, await_pod, create_or_await_pod,
}
use agenttier.Reconcile.Handlers.{transition_to_error, the_sandbox}
use agenttier.Reconcile.Pods.{Pod}
use agenttier.Reconcile.Provisioning.{
  Resolution, no_template, broken_template, resolved, Plan, continued, or_error, policy_and_pod,
  volume_and_pod, provision, adopt_found, adopt_volume, run_claimed, isolate_and_run, relabelled,
  relabel, claim_answered, claim_or_provision, with_template, resolve_and_go, is_unset,
  reconcile_creating,
}
use agenttier.Reconcile.World.{
  Status, Sandbox, Call, update_status, update_object, ensure_network_policy, ensure_volume,
  ensure_api_key, ensure_runtime_token, create_snapshot, notify, claim_pod, get_pod, get_pvc,
  delete_pod, create_pod, delete_pvc, delete_network_policy, get_secret, get_key_record,
  delete_key_record, record_event, update_pod, update_pvc, Verdict, ok, not_found, refused, Fetch,
  found, missing, unreachable, Env, World, Result, no_requeue, after, done, failed, Exit, M,
  bind_exit, ◌>>=◌, ◌>>◌, return, fail, set_status, after_verdict, must, try_call, read_clock,
  fetch_pod, written,
}
use agenttier.WarmPool.Claim.{Claimed, claimed, no_pod, claim_failed}

module _ (env : Env) where
  -- The network policy was ensured, and that succeeded.
  abbrev pub Isolated : List Call → Type 0
  Isolated [] = ⊥
  Isolated (c ∷ log) = ((c ≡ ensure_network_policy) × (env.verdict log c ≡ ok)) ⊎ Isolated log

  -- Neither copy is Running.
  abbrev pub Cold : World → Type 0
  Cold w = (w.sandbox.status.phase ≢ running) × (w.stored.status.phase ≢ running)

  abbrev pub Safe : World → Type 0
  Safe w = w.stored.status.phase ≡ running → Isolated w.log

  abbrev pub Grows : {A : Type 0} → M A → Type 0
  Grows m = (w : World) → Isolated w.log → Isolated (m w).1.log

  abbrev pub Keeps : {A : Type 0} → M A → Type 0
  Keeps m = (w : World) → Cold w → Cold (m w).1

  abbrev pub Good : M Result → Type 0
  Good m = (w : World) → Cold w → Safe (m w).1

  pub exit-Grows :
      {A B : Type 0} (r : Exit A × World) (f : A → M B)
      → Isolated r.1.log
      → ((a : A) → Grows (f a))
      → Isolated (bind_exit r f).1.log
  exit-Grows (done a, w) f i g = g a w i
  exit-Grows (failed, w) f i g = i

  pub bind-Grows :
      {A B : Type 0} (m : M A) (f : A → M B) → Grows m → ((a : A) → Grows (f a)) → Grows (m >>= f)
  bind-Grows m f g h w i = exit-Grows (m w) f (g w i) h

  pub exit-Keeps :
      {A B : Type 0} (r : Exit A × World) (f : A → M B)
      → Cold r.1
      → ((a : A) → Keeps (f a))
      → Cold (bind_exit r f).1
  exit-Keeps (done a, w) f i g = g a w i
  exit-Keeps (failed, w) f i g = i

  pub bind-Keeps :
      {A B : Type 0} (m : M A) (f : A → M B) → Keeps m → ((a : A) → Keeps (f a)) → Keeps (m >>= f)
  bind-Keeps m f g h w i = exit-Keeps (m w) f (g w i) h

  pub Cold-Safe : (w : World) → Cold w → Safe w
  Cold-Safe w c is = absurd (c.1 is)

  pub exit-Good :
      {A : Type 0} (r : Exit A × World) (f : A → M Result)
      → Cold r.1
      → ((a : A) → Good (f a))
      → Safe (bind_exit r f).1
  exit-Good (done a, w) f c g = g a w c
  exit-Good (failed, w) f c g = Cold-Safe w c

  pub bind-Good :
      {A : Type 0} (m : M A) (f : A → M Result) → Keeps m → ((a : A) → Good (f a)) → Good (m >>= f)
  bind-Good m f k g w c = exit-Good (m w) f (k w c) g

  -- One call.
  pub verdict-Grows :
      (v : Verdict) (c : Call) (w : World) → Isolated w.log → Isolated (after_verdict v c w).log
  verdict-Grows ok c w i = inr i
  verdict-Grows not_found c w i = inr i
  verdict-Grows refused c w i = inr i

  written-cold :
      (c : Call) (mem old : Sandbox)
      → mem.status.phase ≢ running
      → old.status.phase ≢ running
      → (written c mem old).status.phase ≢ running
  written-cold update_status mem old m o = m
  written-cold update_object mem old m o = o
  written-cold create_snapshot mem old m o = o
  written-cold notify mem old m o = o
  written-cold claim_pod mem old m o = o
  written-cold ensure_runtime_token mem old m o = o
  written-cold ensure_api_key mem old m o = o
  written-cold ensure_volume mem old m o = o
  written-cold ensure_network_policy mem old m o = o
  written-cold (get_pod x) mem old m o = o
  written-cold (get_pvc x) mem old m o = o
  written-cold (delete_pod x) mem old m o = o
  written-cold (create_pod x) mem old m o = o
  written-cold (delete_pvc x) mem old m o = o
  written-cold (delete_network_policy x) mem old m o = o
  written-cold (get_secret x) mem old m o = o
  written-cold (get_key_record x) mem old m o = o
  written-cold (delete_key_record x) mem old m o = o
  written-cold (record_event x) mem old m o = o
  written-cold (update_pod x) mem old m o = o
  written-cold (update_pvc x) mem old m o = o

  pub verdict-Keeps : (v : Verdict) (c : Call) (w : World) → Cold w → Cold (after_verdict v c w)
  verdict-Keeps ok c w h = (h.0, written-cold c w.sandbox w.stored h.0 h.1)
  verdict-Keeps not_found c w h = h
  verdict-Keeps refused c w h = h

  pub must-Grows : (c : Call) (k : M Result) → Grows k → Grows (must env c >> k)
  must-Grows c k g =
      bind-Grows (must env c) (λ _. k) (λ w. verdict-Grows (env.verdict w.log c) c w) (λ _. g)

  pub try-Grows : {A : Type 0} (c : Call) (k : M A) → Grows k → Grows (try_call env c >> k)
  try-Grows c k g =
      bind-Grows (try_call env c) (λ _. k) (λ w. verdict-Grows (env.verdict w.log c) c w) (λ _. g)

  pub set-Grows : (f : Status → Status) (k : M Result) → Grows k → Grows (set_status f >> k)
  set-Grows f k g w i =
      g (record w { sandbox = record (w.sandbox) { status = f w.sandbox.status } }) i

  pub must-Keeps : (c : Call) (k : M Result) → Keeps k → Keeps (must env c >> k)
  must-Keeps c k g =
      bind-Keeps (must env c) (λ _. k) (λ w. verdict-Keeps (env.verdict w.log c) c w) (λ _. g)

  pub try-Keeps : {A : Type 0} (c : Call) (k : M A) → Keeps k → Keeps (try_call env c >> k)
  try-Keeps c k g =
      bind-Keeps (try_call env c) (λ _. k) (λ w. verdict-Keeps (env.verdict w.log c) c w) (λ _. g)

  pub not_error : error ≢ running
  not_error e = cc

  error_calls : M Result
  error_calls = try_call env (record_event "Error") >> (try_call env notify >> return no_requeue)

  error_update : M Result
  unfolding error_calls
  error_update = must env update_status >> error_calls

  set_error : Text → Status → Status
  set_error message s = record s { phase = error; message = message }

  pub transition_to_error-Grows : (message : Text) → Grows (transition_to_error env message)
  unfolding transition_to_error error_update error_calls set_error
  transition_to_error-Grows message = set-Grows (set_error message) error_update (
      must-Grows update_status error_calls (
        try-Grows (record_event "Error") (try_call env notify >> return no_requeue)
          (try-Grows notify (return no_requeue) (λ w i. i))))

  pub transition_to_error-Keeps : (message : Text) → Keeps (transition_to_error env message)
  unfolding transition_to_error error_update error_calls set_error
  transition_to_error-Keeps message w c =
      must-Keeps update_status error_calls
        (try-Keeps (record_event "Error") (try_call env notify >> return no_requeue)
          (try-Keeps notify (return no_requeue) (λ w' c'. c')))
        (record w { sandbox = record (w.sandbox) { status = set_error message w.sandbox.status } })
        (not_error, c.1)
