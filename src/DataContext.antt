-- ===== src/DataContext.antt =====
-- app/datacontext: the read side, bounded in time by a cutoff against look-ahead.
pub mod Query
pub mod Cutoff
pub mod Readers
pub mod Adjustment
pub mod Alignment
pub mod Snapshot
pub mod Context
mod Examples
