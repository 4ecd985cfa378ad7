-- ===== src/Collect/Queue.antt =====
-- What the operations on the queue do to its slices, together.
pub mod Claiming
pub mod Leases
pub mod Recovering
pub mod Steps
pub mod Invariant
pub mod Transitions
pub mod Reopening
mod Examples
