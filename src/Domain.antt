-- ===== src/Domain.antt =====
-- The domain layer: src/procurement_parser/domain.
pub mod Errors
pub mod Models
pub mod CsvSafety
