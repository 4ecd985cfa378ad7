-- ===== src/Ops.antt =====
-- app/ops: what an operator does to tasks.
pub mod Service
pub mod Stored
pub mod Claims
mod Examples
