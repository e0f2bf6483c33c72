-- ===== src/Docker/Sandbox.antt =====
-- The life of a pod's sandbox in pkg/driver/docker/docker.go: its status, what it is made of, the
-- calls that make, stop and remove it.
pub mod Status
pub mod Plan
pub mod Users
pub mod Life
pub mod Run
pub mod Asked
pub mod Removal
pub mod Rerun
pub mod Reuse
mod Shelf
mod Tests
