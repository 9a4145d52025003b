-- ===== src/Store/Keeps.antt =====
-- Each statement of the store keeps its consistency.
pub mod Settled
pub mod Settling
pub mod Submitting
pub mod Suspending
pub mod Statements
pub mod Graphs
pub mod Deleting
pub mod Running
