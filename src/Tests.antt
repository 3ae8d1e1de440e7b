-- ===== src/Tests.antt =====
-- Concrete runs of the model of src/addressablestools, and instances of its theorems.
mod Data
mod JsonData
mod Json
mod Strings
mod Arrays
mod Registry
mod Reader
mod Backends
mod Objects
mod Version1
mod Catalogs
mod Cycles
mod Depth
mod Compat
mod Copies
