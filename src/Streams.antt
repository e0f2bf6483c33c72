-- ===== src/Streams.antt =====
-- pkg/nanokube/streams.go and the framed log reader of pkg/driver/docker/docker.go.
pub mod Frames
pub mod Demux
pub mod Resizer
mod Tests
