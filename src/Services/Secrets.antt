-- ===== src/Services/Secrets.antt =====
-- The service for the secrets of targets: src/rag_eval/services/secret_service.py, over the secrets
-- of src/rag_eval/db/target_repository.py.
pub mod Names
pub mod Store
pub mod Sanitize
pub mod Owners
pub mod Persist
pub mod Stored
pub mod Clean
pub mod Sanitized
pub mod Guarantees
pub mod Places
pub mod Preserved
pub mod Credentials
