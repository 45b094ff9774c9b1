-- ===== src/Agent/Invoke.antt =====
-- handleInvoke and handleInvokeCancel of pkg/router/agent/invoke.go. The two ways to run a command in the
-- pod are arguments; the counts are those of Tracker. The events of a run are its audit records.
pub mod Paths
pub mod Cancel
use agenttier.Prelude.{
  ℕ, ◌*◌, ◌/◌, String, Bool, true, false, not, ◌&&◌, ◌||◌, Option, none, some, List, [], ◌∷◌, ◌++◌,
  if◌then◌else◌, ltb, str_eq, is_empty, length, Text, codes,
}
use agenttier.Prelude.Int.{ℤ, pos, negsuc, pos_part, ltb_ℤ, is_zero_ℤ}
use agenttier.Agent.Quote.{build_invoke_command}
use agenttier.Agent.Tracker.{Counts, try, release}

-- status.agentConfigure, as far as an invoke reads it.
pub record AgentConfigure : Type 0 where
  pub entrypoint : List Text
  pub max_concurrent_invokes : ℤ
  pub default_invoke_timeout_seconds : ℤ

pub record Sandbox : Type 0 where
  pub name : String
  pub mode : String
  pub phase : String
  pub agent_configure : Option AgentConfigure

-- The query parameters, the body as far as it is read, and whether the response can be streamed.
pub record Request : Type 0 where
  pub timeout : String
  pub prompt : Text
  pub body : Text
  pub can_stream : Bool

pub data ContextState : Type 0 where
  open_context deadline_exceeded canceled_context : ContextState

-- What a command gives back: the exit code, whether there was an error, and the context's state then.
pub record Ended : Type 0 where
  pub exit_code : ℤ
  pub failed : Bool
  pub context : ContextState

-- What the runtime's stream gives back: its last "exit" event, if one came and was readable.
pub record Streamed : Type 0 where
  pub exit : Option (ℤ × String)
  pub failed : Bool
  pub context : ContextState

-- `time.ParseDuration`, in nanoseconds; the exec bridge, with the command, its stdin and the time after
-- which its context ends; and the runtime in the pod, if it is in use, which is also told whole seconds.
pub record Env : Type 0 where
  pub parse_duration : String → Option ℤ
  pub exec : List Text → Text → ℕ → Ended
  pub runtime : Option (List Text → Text → ℕ → ℕ → Streamed)

abbrev pub second : ℕ
second = 1000000000

-- 30 minutes
abbrev pub default_invoke_timeout : ℕ
default_invoke_timeout = 1800 * second

abbrev pub max_body_bytes : ℕ
max_body_bytes = 16 * 1024 * 1024

abbrev pub resolve_concurrency_limit : Sandbox → ℤ
resolve_concurrency_limit sb = elim sb.agent_configure [
  | none ↦ pos 0
  | some a ↦ a.max_concurrent_invokes
]

abbrev pub configured_timeout : Option AgentConfigure → ℕ
configured_timeout none = default_invoke_timeout
configured_timeout (some a) =
    if ltb_ℤ (pos 0) a.default_invoke_timeout_seconds
    then pos_part a.default_invoke_timeout_seconds * second
    else default_invoke_timeout

abbrev pub lowered : ℕ → Option ℤ → ℕ
lowered limit none = limit
lowered limit (some d) = if ltb_ℤ (pos 0) d && ltb_ℤ d (pos limit) then pos_part d else limit

unfoldable pub resolve_invoke_timeout : Env → Sandbox → String → ℕ
resolve_invoke_timeout env sb override =
    let limit = configured_timeout sb.agent_configure in
    if str_eq override "" then limit else lowered limit (env.parse_duration override)

-- The status of a request that is turned away before it takes a place.
abbrev pub has_no_entrypoint : Option AgentConfigure → Bool
has_no_entrypoint none = true
has_no_entrypoint (some a) = is_empty a.entrypoint

unfoldable pub invoke_guards : Sandbox → Option ℕ
invoke_guards sb =
    if not (str_eq sb.mode "agent")
    then some 400
    else (if not (str_eq sb.phase "Running")
        then some 409
        else (if has_no_entrypoint sb.agent_configure then some 424 else none))

abbrev pub entrypoint_of : Option AgentConfigure → List Text
entrypoint_of none = []
entrypoint_of (some a) = a.entrypoint

abbrev pub argv_of : Sandbox → Text → List Text
argv_of sb prompt =
    entrypoint_of sb.agent_configure
    ++ (if is_empty prompt then [] else (codes "--prompt=" ++ prompt) ∷ [])

abbrev pub stdin_of : Request → Text
stdin_of req = if is_empty req.body then req.prompt else req.body

-- streamInvokeViaHTTP: the exit code and the reason.
abbrev pub reason_of_context : ContextState → String
reason_of_context deadline_exceeded = "timeout"
reason_of_context canceled_context = "canceled"
reason_of_context open_context = "error"

abbrev pub captured : Option (ℤ × String) → ℤ × String
captured none = (negsuc 0, "error")
captured (some exit) = exit

abbrev pub via_http : Streamed → ℤ × String
via_http s = if s.failed then (negsuc 0, reason_of_context s.context) else captured s.exit

-- The mapping of an error by the context; a runtime's exit below 0 for "error" is one.
abbrev pub mapped : Bool → ContextState → ℤ → String → ℤ × String
mapped true context code reason = (negsuc 0, reason_of_context context)
mapped false context code reason = (code, reason)

abbrev pub http_exit : Streamed → ℤ × String
http_exit s =
    let (code, reason) = via_http s in
    mapped (ltb_ℤ code (pos 0) && str_eq reason "error") s.context code reason

abbrev pub bridge_exit : Ended → ℤ × String
bridge_exit e = mapped e.failed e.context e.exit_code "completed"

unfoldable pub run_command : Env → List Text → Text → ℕ → ℤ × String
run_command env command stdin timeout = elim env.runtime [
  | none ↦ bridge_exit (env.exec command stdin timeout)
  | some runtime ↦ http_exit (runtime command stdin (timeout / second) timeout)
]

unfoldable pub audit_reason : ℤ → String → String
audit_reason code reason =
    if str_eq reason "timeout"
      || str_eq reason "error"
      || str_eq reason "completed" && not (is_zero_ℤ code)
    then "AgentInvokeFailed"
    else "AgentInvokeCompleted"

pub data Outcome : Type 0 where
  refused : ℕ → Outcome
  throttled : ℕ → Outcome
  ran : ℤ → String → Outcome

-- The audit records, oldest first.
abbrev pub exited : ℤ × String → Outcome × List String
exited (code, reason) = (ran code reason, "AgentInvokeStarted" ∷ audit_reason code reason ∷ [])

-- From the place on.
unfoldable pub with_place : Env → Sandbox → Request → Outcome × List String
with_place env sb req =
    if ltb max_body_bytes (length req.body)
    then (refused 413, [])
    else (if not req.can_stream
        then (refused 500, [])
        else exited (
            run_command env (build_invoke_command (argv_of sb req.prompt)) (stdin_of req)
              (resolve_invoke_timeout env sb req.timeout)))

-- The answer, the audit records and the counts: the place is given back whatever happens with it.
abbrev pub placed : Env → Sandbox → Request → (ℕ × Bool) × Counts → (Outcome × List String) × Counts
placed env sb req ((current, false), counts) = ((throttled current, []), counts)
placed env sb req ((current, true), counts) = (with_place env sb req, release counts sb.name)

abbrev pub guarded : Env → Option ℕ → Sandbox → Request → Counts → (Outcome × List String) × Counts
guarded env (some status) sb req counts = ((refused status, []), counts)
guarded env none sb req counts =
    placed env sb req (try counts sb.name (resolve_concurrency_limit sb))

unfoldable pub handle_invoke : Env → Sandbox → Request → Counts → (Outcome × List String) × Counts
handle_invoke env sb req counts = guarded env (invoke_guards sb) sb req counts
