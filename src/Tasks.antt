-- ===== src/Tasks.antt =====
-- reaper/tasks/__init__.py: the claim of a task, its transaction, and its outcome.
pub mod Connection
pub mod Claim
pub mod Execution
pub mod Outcomes
pub mod Submit
mod Tests
