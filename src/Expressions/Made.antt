-- ===== src/Expressions/Made.antt =====
-- expressions/: the builders return well-formed expressions.
pub mod Values
pub mod Operators
pub mod Shape
pub mod Puts
pub mod ListWrites
pub mod ListReads
pub mod MapWrites
pub mod MapReads
pub mod Bits
pub mod Hll
pub mod Whole
