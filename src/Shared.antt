-- ===== src/Shared.antt =====
-- The shared kernel: src/eka/shared/domain.
pub mod Pagination
pub mod Transaction
pub mod Builtins
