-- ===== src/Evaluation.antt =====
-- The evaluation context: src/eka/modules/evaluation.
pub mod Metrics
pub mod Gate
pub mod InMemorySearcher
pub mod RunEval
mod Tests
