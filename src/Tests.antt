-- ===== src/Tests.antt =====
-- The theorems at concrete inputs, and runs of the definitions.
pub mod Decode
pub mod Symbols
pub mod Layout
pub mod Footers
pub mod Statistics
pub mod Arguments
pub mod Columns
pub mod Bools
pub mod Encodings
pub mod Queue
pub mod Codes
pub mod Pool
pub mod Threads
pub mod Parts
pub mod Files
