-- ===== src/Client/Cache.antt =====
-- client/cache.py, by its parts.
pub mod State
pub mod Evict
pub mod Wheels
pub mod Layers
pub mod Metadata
pub mod Maintain
mod Tests
