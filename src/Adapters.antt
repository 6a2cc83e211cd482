-- ===== src/Adapters.antt =====
-- The adapters to targets: src/rag_eval/adapters.
pub mod Http
