-- ===== src/Cache.antt =====
-- pkg/cache: the disk cache of base images.
pub mod Purge
