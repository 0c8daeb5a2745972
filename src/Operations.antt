-- ===== src/Operations.antt =====
-- operations/cdt.rs and operations/cdt_context.rs: the arguments and the nesting context of the
-- operations on lists, maps, bits and HLL values. The encoder of an operation is one of three
-- functions, so the boxed closure is an enumeration.
pub mod Whole
pub mod ListTypes
pub mod MapTypes
pub mod BitTypes
pub mod HllTypes
pub mod Contexts
pub mod CdtBuilder
pub mod Lists
pub mod ListQueries
pub mod Maps
pub mod MapQueries
pub mod Bitwise
pub mod Hll
pub mod Scalar
pub mod Exp
pub mod Built
use aerospike_client_rust.Base.{ℕ, List, Bool, ℤ}
use aerospike_client_rust.Value.{Value, Values, Entries}

pub record CdtContext : Type 0 where
  pub id : ℕ
  pub flags : ℕ
  pub value : Value

pub data CdtArgument : Type 0 where
  byte : ℕ → CdtArgument
  int : ℤ → CdtArgument
  bool : Bool → CdtArgument
  value : Value → CdtArgument
  list : Values → CdtArgument
  map : Entries → CdtArgument

pub data OperationEncoder : Type 0 where
  pack_cdt_op pack_cdt_bit_op pack_hll_op : OperationEncoder

pub record CdtOperation : Type 0 where
  pub op : ℕ
  pub encoder : OperationEncoder
  pub args : List CdtArgument

pub data OperationType : Type 0 where
  read write cdt_read cdt_write incr exp_read exp_write append prepend touch : OperationType
  bit_read bit_write delete hll_read hll_write : OperationType

-- `op as u8`
unfoldable pub code : OperationType → ℕ
code read = 1
code write = 2
code cdt_read = 3
code cdt_write = 4
code incr = 5
code exp_read = 7
code exp_write = 8
code append = 9
code prepend = 10
code touch = 11
code bit_read = 12
code bit_write = 13
code delete = 14
code hll_read = 15
code hll_write = 16
