-- ===== src/Services.antt =====
-- The services: src/rag_eval/services.
pub mod Lifecycle
pub mod Status
pub mod Secrets
