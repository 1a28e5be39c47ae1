-- ===== src/Generation.antt =====
-- The generation context: src/eka/modules/generation.
pub mod Answers
pub mod Http
pub mod LocalModel
mod Tests
