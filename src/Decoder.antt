-- ===== src/Decoder.antt =====
-- src/addressablestools/decoder.py
pub mod Registry
pub mod Names
pub mod Object
pub mod Version1
pub mod Json
