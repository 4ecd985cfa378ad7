-- ===== src/Governance.antt =====
-- app/governance: the rules of the cleaning and quality stages, and the tasks that run them.
pub mod MinuteRules
pub mod Tasks
