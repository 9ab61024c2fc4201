-- ===== src/Accounts.antt =====
-- app/dependencies.py, app/routers/auth.py and app/routers/invites.py: who a request comes from, and
-- how accounts, memberships, invites and API keys are made.
pub mod Rows
pub mod Session
pub mod Context
pub mod Resolve
pub mod Tokens
pub mod Signup
pub mod Invites
pub mod Joins
pub mod Keys
pub mod Accepting
pub mod Requests
pub mod Resolving
pub mod Cleanup
pub mod Cleaning
pub mod Building
pub mod Presenting
pub mod Uses
pub mod Once
pub mod Inviting
pub mod Verified
pub mod Unique
pub mod Kept
pub mod Guarded
pub mod Behind
pub mod Served
pub mod Founding
