-- ===== src/Config.antt =====
-- The configuration: src/rag_eval/config.
pub mod Matrix
