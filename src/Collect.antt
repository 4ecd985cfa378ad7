-- ===== src/Collect.antt =====
-- app/collect: the task queue, its state machine, and the workers that drain it.
pub mod StateMachine
pub mod Queue
pub mod RateLimit
pub mod Samples
pub mod Model
pub mod Idempotency
pub mod Planners
pub mod Creation
pub mod MarketData
pub mod Repository
pub mod Recovery
pub mod Executor
pub mod Worker
pub mod Scheduler
