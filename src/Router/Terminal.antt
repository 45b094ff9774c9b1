-- ===== src/Router/Terminal.antt =====
-- pkg/router/terminal/manager.go: the sessions of the terminals. A session is reached from two maps,
-- by its ID and by its sandbox; what both point to is the session's fixed fields, and the time of
-- its disconnection stands apart, by ID.
pub mod Lists
pub mod Consistency
pub mod Runs
use agenttier.Prelude.{
  ℕ, ◌-◌, String, Bool, true, false, not, Option, none, some, List, [], ◌∷◌, ◌++◌, if◌then◌else◌,
  str_eq, ltb, keep, length,
}

pub record Session : Type 0 where
  pub id : String
  pub sandbox_id : String
  pub user_id : String

pub record Manager : Type 0 where
  pub sessions : List Session
  pub by_sandbox : String → List Session
  pub disconnected_at : String → Option ℕ

-- 30 seconds
abbrev pub default_reconnect_ttl : ℕ
default_reconnect_ttl = 30000000000

unfoldable pub new_manager : Manager
new_manager = record { sessions = []; by_sandbox = λ b. []; disconnected_at = λ i. none }

abbrev pub assign {ℓ} : {V : Type ℓ} → (String → V) → String → V → String → V
assign m key v k = if str_eq key k then v else m k

-- `delete(m.sessions, id)`
abbrev pub delete : String → List Session → List Session
delete id sessions = keep (λ s. not (str_eq s.id id)) sessions

-- `m.sessions[id]`
unfoldable pub find : String → List Session → Option Session
find id [] = none
find id (s ∷ sessions) = if str_eq s.id id then some s else find id sessions

-- The loop of removeSandboxSession, which takes the first session with the ID out.
unfoldable pub remove_first : String → List Session → List Session
remove_first id [] = []
remove_first id (s ∷ sessions) = if str_eq s.id id then sessions else s ∷ remove_first id sessions

unfoldable pub remove_sandbox_session : String → String → Manager → Manager
remove_sandbox_session sandbox_id session_id m = record m {
  by_sandbox = assign m.by_sandbox sandbox_id (remove_first session_id (m.by_sandbox sandbox_id));
}

-- Takes a session out of both maps.
unfoldable pub remove : Session → Manager → Manager
unfolding remove_sandbox_session
remove s m =
    remove_sandbox_session s.sandbox_id s.id (record m { sessions = delete s.id m.sessions })

-- `id` is what generateSessionID drew.
unfoldable pub create_session : Session → Manager → Manager
create_session s m = record {
  sessions = s ∷ delete s.id m.sessions;
  by_sandbox = assign m.by_sandbox s.sandbox_id (m.by_sandbox s.sandbox_id ++ (s ∷ []));
  disconnected_at = assign m.disconnected_at s.id none;
}

unfoldable pub get_session : String → Manager → Option Session
unfolding find
get_session id m = find id m.sessions

pub data Reconnected : Type 0 where
  connected : Session → Reconnected
  not_found : Reconnected
  not_disconnected : Reconnected
  expired : Reconnected

abbrev pub reconnect_at : ℕ → Session → Option ℕ → Manager → Reconnected × Manager
reconnect_at now s none m = (not_disconnected, m)
reconnect_at now s (some since) m =
    if ltb default_reconnect_ttl (now - since)
    then (expired, remove s m)
    else (connected s, record m { disconnected_at = assign m.disconnected_at s.id none })

abbrev pub reconnect_found : ℕ → Option Session → Manager → Reconnected × Manager
reconnect_found now none m = (not_found, m)
reconnect_found now (some s) m = reconnect_at now s (m.disconnected_at s.id) m

unfoldable pub reconnect : String → ℕ → Manager → Reconnected × Manager
unfolding get_session
reconnect id now m = reconnect_found now (get_session id m) m

abbrev pub disconnect_found : ℕ → Option Session → Manager → Manager
disconnect_found now none m = m
disconnect_found now (some s) m = record m {
  disconnected_at = assign m.disconnected_at s.id (some now);
}

unfoldable pub disconnect_session : String → ℕ → Manager → Manager
unfolding get_session
disconnect_session id now m = disconnect_found now (get_session id m) m

abbrev pub remove_found : Option Session → Manager → Manager
remove_found none m = m
remove_found (some s) m = remove s m

unfoldable pub remove_session : String → Manager → Manager
unfolding get_session
remove_session id m = remove_found (get_session id m) m

abbrev pub get_sandbox_sessions : String → Manager → List Session
get_sandbox_sessions sandbox_id m = m.by_sandbox sandbox_id

-- The closed sessions leave the map of IDs one by one.
unfoldable pub delete_all : List Session → List Session → List Session
delete_all [] sessions = sessions
delete_all (s ∷ closed) sessions = delete_all closed (delete s.id sessions)

unfoldable pub terminate_sandbox_sessions : String → Manager → Manager
terminate_sandbox_sessions sandbox_id m = record m {
  sessions = delete_all (m.by_sandbox sandbox_id) m.sessions;
  by_sandbox = assign m.by_sandbox sandbox_id [];
}

unfoldable pub terminate_user_sessions : String → String → Manager → Manager
terminate_user_sessions sandbox_id user_id m = record m {
  sessions = delete_all (keep (λ s. str_eq s.user_id user_id) (m.by_sandbox sandbox_id)) m.sessions;
  by_sandbox =
      assign m.by_sandbox sandbox_id
        (keep (λ s. not (str_eq s.user_id user_id)) (m.by_sandbox sandbox_id));
}

abbrev pub active_session_count : Manager → ℕ
active_session_count m = length m.sessions

abbrev pub is_expired_session : ℕ → Option ℕ → Bool
is_expired_session now none = false
is_expired_session now (some since) = ltb default_reconnect_ttl (now - since)

-- The walk of a cleanup over the sessions that there were.
unfoldable pub cleanup_each : ℕ → List Session → Manager → Manager
cleanup_each now [] m = m
cleanup_each now (s ∷ sessions) m =
    cleanup_each now sessions
      (if is_expired_session now (m.disconnected_at s.id) then remove s m else m)

unfoldable pub cleanup : ℕ → Manager → Manager
unfolding cleanup_each
cleanup now m = cleanup_each now m.sessions m
