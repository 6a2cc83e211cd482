-- ===== src/Metrics.antt =====
-- The metrics: src/rag_eval/metrics.
pub mod Matching
pub mod Registry
pub mod Presence
pub mod Engine
pub mod Aggregation
pub mod Decision
pub mod StageDelta
pub mod Retrieval
pub mod Spans
