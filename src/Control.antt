-- ===== src/Control.antt =====
-- reaper/control.py: the reducer of pool events.
pub mod Types
pub mod Core
pub mod Apply
pub mod Effects
pub mod Invariant
pub mod Jobs
pub mod Slots
pub mod Spawns
pub mod Methods
pub mod Safety
pub mod Histories
pub mod Dispatch
pub mod Drops
pub mod Shut
pub mod Closed
pub mod Costs
pub mod Capacity
pub mod Closing
mod Tests
