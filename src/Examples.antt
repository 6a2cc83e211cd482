-- ===== src/Examples.antt =====
-- The theorems applied to concrete inputs, and the test data for them, by component.
mod Circuit
mod Retry
mod Recovery
mod Executor
mod Worker
mod Runs
mod CaseWorker
mod Lifecycle
mod Pool
mod Stats
mod Engine
mod Matrix
mod Metrics
mod Aggregation
mod Secrets
mod Compare
mod Http
