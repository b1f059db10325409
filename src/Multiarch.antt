-- ===== src/Multiarch.antt =====
-- pkg/multiarch: images for several platforms.
pub mod Match
pub mod Index
