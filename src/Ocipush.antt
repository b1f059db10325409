-- ===== src/Ocipush.antt =====
-- pkg/ocipush: images move into a registry.
pub mod World
pub mod Errors
pub mod Digest
pub mod Staging
pub mod Routes
pub mod Client
pub mod Direct
pub mod Push
pub mod Proxy
pub mod Mirror
pub mod Trace
