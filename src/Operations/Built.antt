-- ===== src/Operations/Built.antt =====
-- operations/: what the builders promise of the operations that they build.
pub mod Shape
pub mod ListWrites
pub mod ListReads
pub mod MapWrites
pub mod MapReads
pub mod Bits
pub mod Hll
pub mod Whole
