-- ===== src/Schema.antt =====
-- pkg/schema/v1: the config of a build.
pub mod Config
pub mod LocalFile
