-- ===== src/Durable.antt =====
-- reaper/promise.py: what a durable function's calls give, from the memo of its task or from the store.
pub mod Context
pub mod Calls
pub mod Execute
pub mod Kept
pub mod Replay
pub mod Gather
pub mod Compose
pub mod Joins
pub mod Resume
mod Tests
