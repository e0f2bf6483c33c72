-- ===== src/Network.antt =====
-- pkg/nanokube/network.go: the addresses of pod networks, and the pool that hands them out.
pub mod Address
pub mod Pool
mod Tests
