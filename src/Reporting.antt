-- ===== src/Reporting.antt =====
-- The reports: src/rag_eval/reporting.
pub mod Stats
pub mod Compare
