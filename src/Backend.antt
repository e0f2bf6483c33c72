-- ===== src/Backend.antt =====
-- The kubelet's backend of pkg/backend.go.
pub mod Probes
pub mod Admit
pub mod Resources
pub mod Streams
mod Tests
