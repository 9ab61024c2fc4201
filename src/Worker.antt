-- ===== src/Worker.antt =====
-- The Celery task `process_workflow` of app/tasks.py and the nodes of app/services/agent/nodes.py
-- that it calls.
mod Node
mod Nodes
mod Act
mod Process
pub mod Keeps
pub mod Invariant
pub mod Paths
pub mod Resume
pub mod Drafting
unfoldable pub use Node.*
unfoldable pub use Nodes.*
unfoldable pub use Act.*
unfoldable pub use Process.*
