-- ===== src/Planner.antt =====
-- due_diligence/planner/executor.py: the execution of a plan of tasks.
mod Executor
pub mod Finished
pub mod Order
unfoldable pub use Executor.*
