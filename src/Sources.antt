-- ===== src/Sources.antt =====
-- The adapters of the two sites: src/procurement_parser/infrastructure/sources.
pub mod Strategies
pub mod BundleCache
pub mod Lanes
pub mod ZakupPool
pub mod ZakupRequest
pub mod ZakupAdapter
pub mod Json
pub mod ZakupParser
pub mod NoticeLots
pub mod ZakupFields
pub mod ZakupProcurement
pub mod ZakupDetail
pub mod ZakupDelivery
pub mod ZakupDocuments
