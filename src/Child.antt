-- ===== src/Child.antt =====
-- The loops that a child process of reaper/pool.py runs.
pub mod Types
pub mod General
pub mod Service
pub mod Rounds
pub mod Delays
pub mod Announce
pub mod Lifecycle
mod Tests
