-- ===== src/Lifecycle.antt =====
-- Everything that happens to the tables over time: the endpoints, the cron sweeps and the worker,
-- in any order. One operation is one step; what runs at the same time is a sequence of steps.
mod Ops
pub mod Revisions
pub mod Bounds
pub mod Replay
pub mod Atomic
pub mod OwnChange
pub mod Tenancy
pub mod OpenChange
pub mod Decisions
unfoldable pub use Ops.*
