-- ===== src/Documents.antt =====
-- The documents context: src/eka/modules/documents.
pub mod Document
pub mod Repository
pub mod Commands
pub mod Queries
pub mod Http
mod Tests
