-- ===== src/Skeleton.antt =====
-- reaper/skeleton.py: the lifecycle reducer of one child process.
pub mod Types
pub mod Core
pub mod Legal
pub mod Driver
mod Tests
