-- ===== src/Operations/Contexts.antt =====
-- operations/cdt_context.rs: the contexts of nested operations.
use aerospike_client_rust.Base.{ℕ, Bool, ℤ, List, []}
use aerospike_client_rust.Value.{Value}
use aerospike_client_rust.Operations.{CdtContext}
use aerospike_client_rust.Operations.ListTypes.{ListOrderType, list_order_flag}
use aerospike_client_rust.Operations.MapTypes.{MapOrder, map_order_flag}

pub data CtxType : Type 0 where
  list_index list_rank list_value map_index map_rank map_key map_value : CtxType

unfoldable pub ctx_code : CtxType → ℕ
ctx_code list_index = 16
ctx_code list_rank = 17
ctx_code list_value = 19
ctx_code map_index = 32
ctx_code map_rank = 33
ctx_code map_key = 34
ctx_code map_value = 35

abbrev pub default_ctx : List CdtContext
default_ctx = []

unfoldable pub ctx_list_index : ℤ → CdtContext
ctx_list_index index = record {
  id = ctx_code CtxType.list_index;
  flags = 0;
  value = Value.int index;
}

unfoldable pub ctx_list_index_create : ℤ → ListOrderType → Bool → CdtContext
ctx_list_index_create index order pad = record {
  id = ctx_code CtxType.list_index;
  flags = list_order_flag order pad;
  value = Value.int index;
}

unfoldable pub ctx_list_rank : ℤ → CdtContext
ctx_list_rank rank = record { id = ctx_code CtxType.list_rank; flags = 0; value = Value.int rank }

unfoldable pub ctx_list_value : Value → CdtContext
ctx_list_value key = record { id = ctx_code CtxType.list_value; flags = 0; value = key }

unfoldable pub ctx_map_index : Value → CdtContext
ctx_map_index key = record { id = ctx_code CtxType.map_index; flags = 0; value = key }

unfoldable pub ctx_map_rank : ℤ → CdtContext
ctx_map_rank rank = record { id = ctx_code CtxType.map_rank; flags = 0; value = Value.int rank }

unfoldable pub ctx_map_key : Value → CdtContext
ctx_map_key key = record { id = ctx_code CtxType.map_key; flags = 0; value = key }

unfoldable pub ctx_map_key_create : Value → MapOrder → CdtContext
ctx_map_key_create key order = record {
  id = ctx_code CtxType.map_key;
  flags = map_order_flag order;
  value = key;
}

unfoldable pub ctx_map_value : Value → CdtContext
ctx_map_value key = record { id = ctx_code CtxType.map_value; flags = 0; value = key }
