-- ===== src/Execution.antt =====
-- The execution layer: src/rag_eval/execution.
pub mod Circuit
pub mod Errors
pub mod Retry
pub mod Store
pub mod Recovery
pub mod Transactions
pub mod Executor
pub mod Attempts
pub mod Worker
pub mod Runs
pub mod Cases
pub mod Selection
pub mod CaseWorker
pub mod Pool
