-- ===== src/Pool.antt =====
-- reaper/pool.py: the pool of warm child processes.
pub mod Heartbeat
pub mod Faults
pub mod Circuit
mod Tests
pub mod Spawn
pub mod Tidy
pub mod Slots
pub mod Drive
pub mod Operations
pub mod Teardown
pub mod Watching
pub mod Names
pub mod Mirror
pub mod Rounds
pub mod Carries
pub mod Started
pub mod Turns
pub mod Finishes
pub mod Serving
pub mod Serves
pub mod Runs
pub mod Submits
pub mod Lives
pub mod Stays
pub mod Starting
pub mod Begins
pub mod Synced
pub mod Family
mod Scenes
pub mod Recovery
pub mod Frames
pub mod Messages
pub mod Futures
pub mod Answers
