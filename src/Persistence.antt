-- ===== src/Persistence.antt =====
-- The persistence layer: src/procurement_parser/infrastructure/persistence/postgres.
pub mod Tables
pub mod Enqueue
pub mod Refresh
pub mod Claim
pub mod Settle
pub mod Calls
pub mod Checkpoints
pub mod Jobs
pub mod EntityTables
pub mod EntityContents
pub mod Entities
