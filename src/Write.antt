-- ===== src/Write.antt =====
-- src/write.rs: the writer.
pub mod Column
pub mod Ints
pub mod Pick
pub mod Queue
