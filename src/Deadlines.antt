-- ===== src/Deadlines.antt =====
-- app/tasks.py: the task `deadline_scanner`, which runs every 15 minutes.
mod Scanner
pub mod Rows
pub mod Urgency
pub mod Scanned
unfoldable pub use Scanner.*
