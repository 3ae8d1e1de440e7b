-- ===== src/Catalog/Json.antt =====
-- The JSON catalogs of src/addressablestools/catalog.py.
pub mod Fields
pub mod Buckets
pub mod Texts
pub mod Keys
pub mod Prefixes
pub mod Records
pub mod Locations
pub mod Resources
pub mod Parse
pub mod Errors
pub mod Refusals
pub mod Raised
pub mod Outcome
pub mod FastKeys
pub mod AllKeys
pub mod Entries
pub mod Bounds
pub mod Checks
pub mod StoredBuckets
pub mod Prefixed
pub mod StoredRecords
