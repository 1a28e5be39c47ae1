-- ===== src/Ingestion.antt =====
-- The ingestion context: src/eka/modules/ingestion.
pub mod Jobs
pub mod Chunking
pub mod Chunks
pub mod Pipeline
pub mod Uploads
pub mod JobQueries
pub mod Completion
mod Tests
pub mod Embedding
pub mod Worker
pub mod Http
