-- ===== src/Storage.antt =====
-- pkg/storage: how the API server's storage client reaches the embedded etcd server.
pub mod Flow
pub mod Client
pub mod State
pub mod Backends
pub mod Dispatch
pub mod Peers
pub mod Once
pub mod Hook
pub mod Pipe
mod Tests
mod Samples
