-- ===== src/Binary.antt =====
-- src/addressablestools/binary.py
pub mod Reader
pub mod State
pub mod Strings
pub mod Arrays
pub mod Header
pub mod Sound
pub mod Stable
pub mod Layout
