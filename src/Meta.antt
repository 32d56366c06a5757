-- ===== src/Meta.antt =====
-- src/meta.rs: footers, the schema that a set of files agrees on, and the footer cache.
pub mod Leaf
pub mod Footers
pub mod Stats
pub mod Open
