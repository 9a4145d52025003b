-- ===== src/Worker.antt =====
-- reaper/worker.py: the services that a task child and a maintenance child run.
pub mod Tasks
pub mod Poll
pub mod Reports
pub mod Accepts
pub mod Maintenance
