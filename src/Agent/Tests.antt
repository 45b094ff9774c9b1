-- ===== src/Agent/Tests.antt =====
-- The theorems on invokes at concrete inputs.
use agenttier.Prelude.{String, true, false, not, ◌&&◌, none, some, List, [], ◌∷◌, ◌≡◌, Text, codes}
use agenttier.Prelude.Int.{ℤ, pos, ltb_ℤ, leb_ℤ}
use agenttier.Agent.Invoke.{Sandbox, Request, open_context, Env}
use agenttier.Agent.Invoke.Cancel.{
  RegistryEntry, Rightful, handle_invoke_cancel, handle_invoke_cancel-Rightful,
}
use agenttier.Agent.Quote.{build_invoke_command}
use agenttier.Agent.Quote.Words.{plain, split, split-build_invoke_command}
use agenttier.Agent.Tracker.{count_of, try, start, finish, run, idle}
use agenttier.Agent.Tracker.Counts.{running_in, run-Exact-Within}
use agenttier.Webhook.Subscription.{lookup}

abbrev argv : List Text
argv = codes "python" ∷ codes "it's $HOME" ∷ [] ∷ []

split-build_invoke_command_example :
    (line : Text) × (build_invoke_command argv ≡ codes "/bin/sh" ∷ codes "-c" ∷ line ∷ [])
    × (split plain none line ≡ some argv)
split-build_invoke_command_example = split-build_invoke_command argv

abbrev two_each : String → ℤ
two_each sandbox_id = pos 2

run-Exact-Within_example :
    let s = run two_each (start "a" ∷ start "a" ∷ start "a" ∷ finish 0 ∷ start "b" ∷ []) idle in
    (count_of s.counts "a" ≡ running_in "a" s.running)
    × ((ltb_ℤ (pos 0) (two_each "a") && ltb_ℤ (two_each "a") (pos (running_in "a" s.running)))
        ≡ false)
    × ((try s.counts "a" (two_each "a")).0.1
        ≡ not
            (ltb_ℤ (pos 0) (two_each "a") && leb_ℤ (two_each "a") (pos (running_in "a" s.running))))
run-Exact-Within_example =
    run-Exact-Within two_each (start "a" ∷ start "a" ∷ start "a" ∷ finish 0 ∷ start "b" ∷ []) "a"

abbrev sandbox : Sandbox
sandbox = record {
  name = "sb-1";
  mode = "agent";
  phase = "Running";
  agent_configure = some (record {
    entrypoint = argv;
    max_concurrent_invokes = pos 2;
    default_invoke_timeout_seconds = pos 60;
  });
}

abbrev env : Env
env = record {
  parse_duration = λ text. some (pos 5000000000);
  exec =
      λ command stdin timeout. record { exit_code = pos 1; failed = false; context = open_context };
  runtime = none;
}

abbrev request : Request
request = record { timeout = "5s"; prompt = codes "hi"; body = []; can_stream = true }

abbrev records : List String
records = "AgentInvokeStarted" ∷ "AgentInvokeFailed" ∷ []

abbrev entry : RegistryEntry
entry = record { sandbox_id = "sb-1"; actor = "ada" }

handle_invoke_cancel-Rightful_example :
    Rightful "sb-1" "ada" false none "inv-1"
      (lookup "inv-1" (("inv-1", entry) ∷ []))
      (handle_invoke_cancel "sb-1" "agent" "ada" false none (("inv-1", entry) ∷ []) (some "inv-1"))
handle_invoke_cancel-Rightful_example =
    handle_invoke_cancel-Rightful "sb-1" "agent" "ada" false none (("inv-1", entry) ∷ []) "inv-1"
