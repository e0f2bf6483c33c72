-- ===== src/Tags.antt =====
-- pkg/nanokube/tags.go: the tags that nanokube keeps as labels on the runtime's resources.
pub mod Label
pub mod Decimal
pub mod Builder
mod Tests
