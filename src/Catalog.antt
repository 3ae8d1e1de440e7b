-- ===== src/Catalog.antt =====
-- src/addressablestools/catalog.py
pub mod Locations
pub mod Resources
pub mod Parse
pub mod Backends
pub mod Sharing
pub mod Kept
pub mod Sound
pub mod Depth
pub mod Caches
pub mod Cycles
pub mod Json
