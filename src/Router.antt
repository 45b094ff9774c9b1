-- ===== src/Router.antt =====
-- pkg/router: what the HTTP front end decides before it calls anything else.
pub mod ScopedKeys
pub mod RateLimit
pub mod Terminal
pub mod Access
mod Tests
