-- ===== src/Compat.antt =====
-- src/AddressablesTools.py: the interface with the old names.
pub mod Registry
pub mod Handler
pub mod Values
pub mod Snapshot
pub mod Sharing
pub mod Entries
pub mod Parse
pub mod Cached
pub mod Fresh
pub mod Dependencies
pub mod Copies
