-- ===== src/Read.antt =====
-- src/read.rs
pub mod Patch
pub mod Nulls
pub mod Fill
pub mod Symbols
pub mod Window
pub mod Select
pub mod Codes
pub mod Decode
pub mod One
