-- ===== src/Listener.antt =====
-- reaper/postgres.py: the connection on which a task child listens for work.
pub mod Core
pub mod Connections
mod Tests
