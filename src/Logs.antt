-- ===== src/Logs.antt =====
-- Container logs: pkg/nanokube/log.go and LogStream of pkg/driver/docker/docker.go.
pub mod Lines
pub mod Stream
pub mod Pump
pub mod Runtime
mod Tests
