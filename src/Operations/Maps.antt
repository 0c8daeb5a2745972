-- ===== src/Operations/Maps.antt =====
-- operations/maps.rs: the operations on maps that write.
use aerospike_client_rust.Base.{ℕ, ℤ, true, false, List, [], ◌∷◌, ◌++◌, byte, from_option}
use aerospike_client_rust.Value.{Value, Values, Entries}
use aerospike_client_rust.Operations.{CdtArgument, OperationType}
use aerospike_client_rust.Operations.Whole.{Operation}
use aerospike_client_rust.Operations.Contexts.{default_ctx}
use aerospike_client_rust.Operations.CdtBuilder.{map_operation, unless_nil}
use aerospike_client_rust.Operations.MapTypes.{
  CdtMapOpType, MapOrder, MapReturnType, MapPolicy, map_op_code, map_order_code, map_return_code,
  map_write_op, map_order_arg,
}

unfoldable pub set_order : {F : Type 0} → List ℕ → MapOrder → Operation F
set_order bin map_order =
    map_operation OperationType.cdt_write default_ctx bin (map_op_code CdtMapOpType.set_type)
      (CdtArgument.byte (map_order_code map_order) ∷ [])

unfoldable pub put : {F : Type 0} → MapPolicy → List ℕ → Value → Value → Operation F
put policy bin key val =
    map_operation OperationType.cdt_write default_ctx bin (map_op_code (map_write_op policy false))
      (CdtArgument.value key ∷ (unless_nil val ++ from_option (map_order_arg policy)))

unfoldable pub put_items : {F : Type 0} → MapPolicy → List ℕ → Entries → Operation F
put_items policy bin items =
    map_operation OperationType.cdt_write default_ctx bin (map_op_code (map_write_op policy true))
      (CdtArgument.map items ∷ (from_option (map_order_arg policy)))

unfoldable pub increment_value : {F : Type 0} → MapPolicy → List ℕ → Value → Value → Operation F
increment_value policy bin key incr =
    map_operation OperationType.cdt_write default_ctx bin (map_op_code CdtMapOpType.increment)
      (CdtArgument.value key ∷ (unless_nil incr ++ from_option (map_order_arg policy)))

unfoldable pub decrement_value : {F : Type 0} → MapPolicy → List ℕ → Value → Value → Operation F
decrement_value policy bin key decr =
    map_operation OperationType.cdt_write default_ctx bin (map_op_code CdtMapOpType.decrement)
      (CdtArgument.value key ∷ (unless_nil decr ++ from_option (map_order_arg policy)))

unfoldable pub clear : {F : Type 0} → List ℕ → Operation F
clear bin =
    map_operation OperationType.cdt_write default_ctx bin (map_op_code CdtMapOpType.clear) []

unfoldable pub remove_by_key : {F : Type 0} → List ℕ → Value → MapReturnType → Operation F
remove_by_key bin key return_type =
    map_operation OperationType.cdt_write default_ctx bin (map_op_code CdtMapOpType.remove_by_key)
      (CdtArgument.byte (byte (map_return_code return_type)) ∷ CdtArgument.value key ∷ [])

unfoldable pub remove_by_key_list : {F : Type 0} → List ℕ → Values → MapReturnType → Operation F
remove_by_key_list bin keys return_type =
    map_operation OperationType.cdt_write default_ctx bin (map_op_code CdtMapOpType.remove_key_list)
      (CdtArgument.byte (byte (map_return_code return_type)) ∷ CdtArgument.list keys ∷ [])

unfoldable pub remove_by_key_range :
    {F : Type 0} → List ℕ → Value → Value → MapReturnType → Operation F
remove_by_key_range bin begin end return_type =
    map_operation OperationType.cdt_write default_ctx bin
      (map_op_code CdtMapOpType.remove_by_key_interval)
      (CdtArgument.byte (byte (map_return_code return_type))
        ∷ CdtArgument.value begin
        ∷ (unless_nil end))

unfoldable pub remove_by_value : {F : Type 0} → List ℕ → Value → MapReturnType → Operation F
remove_by_value bin value return_type =
    map_operation OperationType.cdt_write default_ctx bin (map_op_code CdtMapOpType.remove_by_value)
      (CdtArgument.byte (byte (map_return_code return_type)) ∷ CdtArgument.value value ∷ [])

unfoldable pub remove_by_value_list : {F : Type 0} → List ℕ → Values → MapReturnType → Operation F
remove_by_value_list bin vals return_type =
    map_operation OperationType.cdt_write default_ctx bin
      (map_op_code CdtMapOpType.remove_value_list)
      (CdtArgument.byte (byte (map_return_code return_type)) ∷ CdtArgument.list vals ∷ [])

unfoldable pub remove_by_value_range :
    {F : Type 0} → List ℕ → Value → Value → MapReturnType → Operation F
remove_by_value_range bin begin end return_type =
    map_operation OperationType.cdt_write default_ctx bin
      (map_op_code CdtMapOpType.remove_by_value_interval)
      (CdtArgument.byte (byte (map_return_code return_type))
        ∷ CdtArgument.value begin
        ∷ (unless_nil end))

unfoldable pub remove_by_index : {F : Type 0} → List ℕ → ℤ → MapReturnType → Operation F
remove_by_index bin index return_type =
    map_operation OperationType.cdt_write default_ctx bin (map_op_code CdtMapOpType.remove_by_index)
      (CdtArgument.byte (byte (map_return_code return_type)) ∷ CdtArgument.int index ∷ [])

unfoldable pub remove_by_index_range : {F : Type 0} → List ℕ → ℤ → ℤ → MapReturnType → Operation F
remove_by_index_range bin index count return_type =
    map_operation OperationType.cdt_write default_ctx bin
      (map_op_code CdtMapOpType.remove_by_index_range)
      (CdtArgument.byte (byte (map_return_code return_type))
        ∷ CdtArgument.int index
        ∷ CdtArgument.int count
        ∷ [])

unfoldable pub remove_by_index_range_from : {F : Type 0} → List ℕ → ℤ → MapReturnType → Operation F
remove_by_index_range_from bin index return_type =
    map_operation OperationType.cdt_write default_ctx bin
      (map_op_code CdtMapOpType.remove_by_index_range)
      (CdtArgument.byte (byte (map_return_code return_type)) ∷ CdtArgument.int index ∷ [])

unfoldable pub remove_by_rank : {F : Type 0} → List ℕ → ℤ → MapReturnType → Operation F
remove_by_rank bin rank return_type =
    map_operation OperationType.cdt_write default_ctx bin (map_op_code CdtMapOpType.remove_by_rank)
      (CdtArgument.byte (byte (map_return_code return_type)) ∷ CdtArgument.int rank ∷ [])

unfoldable pub remove_by_rank_range : {F : Type 0} → List ℕ → ℤ → ℤ → MapReturnType → Operation F
remove_by_rank_range bin rank count return_type =
    map_operation OperationType.cdt_write default_ctx bin
      (map_op_code CdtMapOpType.remove_by_rank_range)
      (CdtArgument.byte (byte (map_return_code return_type))
        ∷ CdtArgument.int rank
        ∷ CdtArgument.int count
        ∷ [])

unfoldable pub remove_by_rank_range_from : {F : Type 0} → List ℕ → ℤ → MapReturnType → Operation F
remove_by_rank_range_from bin rank return_type =
    map_operation OperationType.cdt_write default_ctx bin
      (map_op_code CdtMapOpType.remove_by_rank_range)
      (CdtArgument.byte (byte (map_return_code return_type)) ∷ CdtArgument.int rank ∷ [])

unfoldable pub remove_by_key_relative_index_range :
    {F : Type 0} → List ℕ → Value → ℤ → MapReturnType → Operation F
remove_by_key_relative_index_range bin key index return_type =
    map_operation OperationType.cdt_write default_ctx bin
      (map_op_code CdtMapOpType.remove_by_key_rel_index_range)
      (CdtArgument.byte (byte (map_return_code return_type))
        ∷ CdtArgument.value key
        ∷ CdtArgument.int index
        ∷ [])

unfoldable pub remove_by_key_relative_index_range_count :
    {F : Type 0} → List ℕ → Value → ℤ → ℤ → MapReturnType → Operation F
remove_by_key_relative_index_range_count bin key index count return_type =
    map_operation OperationType.cdt_write default_ctx bin
      (map_op_code CdtMapOpType.remove_by_key_rel_index_range)
      (CdtArgument.byte (byte (map_return_code return_type))
        ∷ CdtArgument.value key
        ∷ CdtArgument.int index
        ∷ CdtArgument.int count
        ∷ [])

unfoldable pub remove_by_value_relative_rank_range :
    {F : Type 0} → List ℕ → Value → ℤ → MapReturnType → Operation F
remove_by_value_relative_rank_range bin value rank return_type =
    map_operation OperationType.cdt_write default_ctx bin
      (map_op_code CdtMapOpType.remove_by_value_rel_rank_range)
      (CdtArgument.byte (byte (map_return_code return_type))
        ∷ CdtArgument.value value
        ∷ CdtArgument.int rank
        ∷ [])

unfoldable pub remove_by_value_relative_rank_range_count :
    {F : Type 0} → List ℕ → Value → ℤ → ℤ → MapReturnType → Operation F
remove_by_value_relative_rank_range_count bin value rank count return_type =
    map_operation OperationType.cdt_write default_ctx bin
      (map_op_code CdtMapOpType.remove_by_value_rel_rank_range)
      (CdtArgument.byte (byte (map_return_code return_type))
        ∷ CdtArgument.value value
        ∷ CdtArgument.int rank
        ∷ CdtArgument.int count
        ∷ [])
