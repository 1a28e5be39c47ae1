-- ===== src/Retrieval.antt =====
-- The retrieval context: src/eka/modules/retrieval.
pub mod Search
pub mod RedisCache
pub mod Http
pub mod Reranker
pub mod Retriever
mod Tests
