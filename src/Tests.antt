-- ===== src/Tests.antt =====
-- Concrete runs of the model, and the theorems at concrete inputs.
mod Fixtures
mod Approving
mod Working
mod Sweeping
mod Running
mod Scanning
mod Planning
mod Entering
mod Enrolled
mod Identifying
mod Founding
mod Starting
mod Selecting
mod Escalating
