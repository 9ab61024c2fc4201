-- ===== src/ActionAgent.antt =====
-- app/routers/action_agent.py: the lawyer's two decisions on an ACT workflow.
mod Endpoints
pub mod Revision
pub mod Cycles
unfoldable pub use Endpoints.*
