-- ===== src/Goals.antt =====
-- app/routers/goals.py: confirming the intent or the plan of a goal, and cancelling it.
mod Endpoints
pub mod Create
pub mod Creating
pub mod Reaching
pub mod Cancelling
unfoldable pub use Endpoints.*
