-- ===== src/Pipeline.antt =====
-- The application layer: src/procurement_parser/application/pipeline.py.
pub mod Window
pub mod Discovery
pub mod Batch
pub mod Task
pub mod Drain
pub mod Worker
