-- ===== src/Discovery.antt =====
-- pkg/discovery/discovery.go: requests to the discovery service, and the seed of a node.
pub mod Retry
pub mod Seed
mod Tests
pub mod Peers
