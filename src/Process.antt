-- ===== src/Process.antt =====
-- pkg/nanokube.go and pkg/command.go: the process, its files and its hooks.
pub mod Cancel
pub mod Identity
pub mod Gates
pub mod Drain
pub mod Access
pub mod Roles
pub mod Options
mod Tests
