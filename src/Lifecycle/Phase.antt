-- ===== src/Lifecycle/Phase.antt =====
-- api/v1alpha1/sandbox_types.go: the phase of a sandbox.
use agenttier.Prelude.{String, Bool, true, false}

-- `SandboxPhase` is a string: the constants, the empty string of a fresh object, and any other text.
pub data Phase : Type 0 where
  unset creating running stopped error deleting : Phase
  other : String → Phase

abbrev pub is_running : Phase → Bool
is_running running = true
is_running _ = false

-- Stopped or Error.
abbrev pub is_resumable : Phase → Bool
is_resumable stopped = true
is_resumable error = true
is_resumable _ = false
