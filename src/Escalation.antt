-- ===== src/Escalation.antt =====
-- due_diligence/escalation/triggers.py: when a finding is handed to a reviewer.
mod Triggers
pub mod Justified
pub mod Fired
pub mod Alerts
unfoldable pub use Triggers.*
