-- ===== src/Keys.antt =====
-- pkg/router/auth/apikey.go and pkg/apikeystore/store.go: API keys, where they are kept, and how a
-- request that shows one is answered; pkg/controller/scoped_key.go, which mints a sandbox's own key.
pub mod Maps
pub mod Cache
pub mod Labels
pub mod Store
pub mod Handlers
pub mod Minting
mod Tests
pub mod Validator
use agenttier.Prelude.{ℕ, String, Option, List}

-- The types are those of auth.APIKeyRecord; an instant is its number of nanoseconds.
pub record ApiKeyRecord : Type 0 where
  pub key_hash : String
  pub user_id : String
  pub email : String
  pub name : String
  pub scopes : List String
  pub allowed_namespaces : List String
  pub sandbox_id : String
  pub action_groups : List String
  pub created_at : ℕ
  pub expires_at : Option ℕ
  pub last_used_at : Option ℕ
