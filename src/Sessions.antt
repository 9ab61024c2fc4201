-- ===== src/Sessions.antt =====
-- app/redis_client.py: the sessions of selected documents, with a reverse index from files to
-- sessions.
pub mod Store
pub mod Removal
pub mod Lifetime
