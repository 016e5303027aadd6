-- ===== src/Store.antt =====
-- internal/store: the compact on-disk format.
pub mod Template
pub mod Varint
pub mod Block
pub mod Words
pub mod Header
pub mod Codec
pub mod Scan
pub mod Writer
pub mod Summary
pub mod Targets
