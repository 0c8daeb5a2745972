-- ===== src/Expressions.antt =====
-- What the commands use of expressions/mod.rs: `FilterExpression::pack`. Of the
-- expressions with `IsPackable` it is assumed that the packer counts without a buffer what it
-- writes with one, and that this is not nothing.
pub mod ExpOp
pub mod ExpType
pub mod Filter
pub mod Packing
pub mod Tree
pub mod WellFormed
pub mod Counted
pub mod Parts
pub mod Packed
pub mod Filters
pub mod Values
pub mod Operators
pub mod CallOps
pub mod Calls
pub mod Lists
pub mod ListQueries
pub mod Maps
pub mod MapQueries
pub mod Bitwise
pub mod Hll
pub mod Made
use aerospike_client_rust.Base.{ℕ, ◌≤◌, List, length}
use aerospike_client_rust.Msgpack.Pack.{Pack, Packs}

pub record Expressions : Type 1 where
  pub FilterExpression : Type 0
  pub pack : FilterExpression → Pack
  pub encoding : FilterExpression → List ℕ
  pub IsPackable : FilterExpression → Type 0
  pub pack-Packs : (e : FilterExpression) → IsPackable e → Packs (pack e) (encoding e)
  pub encoding-nonempty : (e : FilterExpression) → IsPackable e → 1 ≤ length (encoding e)
