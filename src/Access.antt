-- ===== src/Access.antt =====
-- app/middleware/rbac_middleware.py: the roles that endpoints require.
mod Guard
pub mod Levels
unfoldable pub use Guard.*
