-- ===== src/Store.antt =====
-- reaper/schema.sql and the statements of the store: its tables as a state, each statement as a
-- function on it.
pub mod Types
pub mod Rows
pub mod Order
pub mod Submit
pub mod Settle
pub mod Suspend
pub mod Claim
pub mod Maintain
pub mod Tasks
pub mod Events
pub mod Invariant
pub mod Keeps
pub mod Status
pub mod Ready
mod Tests
