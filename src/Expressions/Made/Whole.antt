-- ===== src/Expressions/Made/Whole.antt =====
-- expressions/: the filters that the builders of the modules return.
use aerospike_client_rust.Buffer.Endian.{Endian}
use aerospike_client_rust.Value.Display.{Formatting}
use aerospike_client_rust.Msgpack.Pack.{Packs}
use aerospike_client_rust.Expressions.Filter.{FilterExpression}
use aerospike_client_rust.Expressions.Packing.{pack}
use aerospike_client_rust.Expressions.Tree.{flatten_each, trees}
use aerospike_client_rust.Expressions.WellFormed.{IsExpression}
use aerospike_client_rust.Expressions.Packed.{pack-IsExpression}
use aerospike_client_rust.Expressions.Made.Shape.{
  IsRightCall, list_reads, map_reads, bit_reads, hll_reads,
}
use aerospike_client_rust.Expressions.Made.Values.{IsValue, value-IsExpression}
use aerospike_client_rust.Expressions.Made.Operators.{IsOperator, operator-IsExpression}
use aerospike_client_rust.Expressions.Made.ListWrites.{IsListWrite, list_write-IsRight}
use aerospike_client_rust.Expressions.Made.ListReads.{IsListQuery, list_query-IsRight}
use aerospike_client_rust.Expressions.Made.MapWrites.{IsMapWrite, map_write-IsRight}
use aerospike_client_rust.Expressions.Made.MapReads.{IsMapQuery, map_query-IsRight}
use aerospike_client_rust.Expressions.Made.Bits.{IsBitCall, bit_call-IsRight}
use aerospike_client_rust.Expressions.Made.Hll.{IsHllCall, hll_call-IsRight}

-- A filter that a builder returns on well-formed expressions, packable values and contexts.
pub data IsMade : FilterExpression → Type 0 where
  value : (e : FilterExpression) → IsValue e → IsMade e
  operator : (e : FilterExpression) → IsOperator e → IsMade e
  list_write : (e : FilterExpression) → IsListWrite e → IsMade e
  list_query : (e : FilterExpression) → IsListQuery e → IsMade e
  map_write : (e : FilterExpression) → IsMapWrite e → IsMade e
  map_query : (e : FilterExpression) → IsMapQuery e → IsMade e
  bits : (e : FilterExpression) → IsBitCall e → IsMade e
  hll : (e : FilterExpression) → IsHllCall e → IsMade e

-- What every builder promises of its filter: it is well formed, and the flags of a call are those
-- of its module, with `MODIFY` unless its code only reads.
unfoldable pub IsRight : {e : FilterExpression} → IsMade e → Type 0
IsRight {e} (IsMade.value _ h) = IsExpression e
IsRight {e} (IsMade.operator _ h) = IsExpression e
IsRight {e} (IsMade.list_write _ h) = IsExpression e × IsRightCall 0 list_reads e
IsRight {e} (IsMade.list_query _ h) = IsExpression e × IsRightCall 0 list_reads e
IsRight {e} (IsMade.map_write _ h) = IsExpression e × IsRightCall 0 map_reads e
IsRight {e} (IsMade.map_query _ h) = IsExpression e × IsRightCall 0 map_reads e
IsRight {e} (IsMade.bits _ h) = IsExpression e × IsRightCall 1 bit_reads e
IsRight {e} (IsMade.hll _ h) = IsExpression e × IsRightCall 2 hll_reads e

pub made-IsExpression : {e : FilterExpression} → IsMade e → IsExpression e
made-IsExpression (IsMade.value e h) = value-IsExpression e h
made-IsExpression (IsMade.operator e h) = operator-IsExpression e h
made-IsExpression (IsMade.list_write e h) = (list_write-IsRight e h).0
made-IsExpression (IsMade.list_query e h) = (list_query-IsRight e h).0
made-IsExpression (IsMade.map_write e h) = (map_write-IsRight e h).0
made-IsExpression (IsMade.map_query e h) = (map_query-IsRight e h).0
made-IsExpression (IsMade.bits e h) = (bit_call-IsRight e h).0
made-IsExpression (IsMade.hll e h) = (hll_call-IsRight e h).0

module _ ⦃endian : Endian⦄ ⦃formatting : Formatting⦄ where
  -- Packing what a builder returns never fails: both runs agree with its tree.
  pub pack-made : (e : FilterExpression) → IsMade e → Packs (pack e) (flatten_each (trees e))
  pack-made e h = pack-IsExpression e (made-IsExpression h)
