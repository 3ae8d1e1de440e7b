-- ===== src/Models.antt =====
-- src/addressablestools/models.py: the values that a catalog is decoded to.
pub mod Object
pub mod Catalog
pub mod Locations
pub mod Hash
pub mod Lookup
pub mod Keys
