-- ===== src/Adapters/Http.antt =====
-- The declarative HTTP adapter: src/rag_eval/adapters/generic_http.py.
pub mod Paths
pub mod Templates
pub mod Rendered
pub mod Transport
pub mod Protocol
pub mod Query
pub mod Retrieve
pub mod Declared
pub mod Health
pub mod Answers
