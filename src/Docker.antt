-- ===== src/Docker.antt =====
-- pkg/driver/docker/docker.go: what the driver decides before it calls the container runtime.
pub mod Create
pub mod Listing
pub mod Exec
pub mod Images
pub mod Sandbox
pub mod Volumes
pub mod Networks
mod Tests
