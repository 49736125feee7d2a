-- ===== src/Examples.antt =====
-- The theorems at concrete inputs that meet their hypotheses, and tests of the definitions.
pub mod Network
pub mod Queue
mod Pipeline
mod Sources
mod Domain
mod Lanes
mod Checkpoints
mod Jobs
pub mod Records
mod Entities
mod Zakup
mod Pool
