-- ===== src/Network.antt =====
-- The network layer: src/procurement_parser/infrastructure/network.
pub mod CircuitBreaker
pub mod ProxyPool
