-- ===== src/Operations/MapQueries.antt =====
-- operations/maps.rs: the operations on maps that read.
use aerospike_client_rust.Base.{ℕ, ℤ, List, [], ◌∷◌, byte}
use aerospike_client_rust.Value.{Value, Values}
use aerospike_client_rust.Operations.{CdtArgument, OperationType}
use aerospike_client_rust.Operations.Whole.{Operation}
use aerospike_client_rust.Operations.Contexts.{default_ctx}
use aerospike_client_rust.Operations.CdtBuilder.{map_operation, unless_nil}
use aerospike_client_rust.Operations.MapTypes.{
  CdtMapOpType, MapReturnType, map_op_code, map_return_code,
}

unfoldable pub size : {F : Type 0} → List ℕ → Operation F
size bin = map_operation OperationType.cdt_read default_ctx bin (map_op_code CdtMapOpType.size) []

unfoldable pub get_by_key : {F : Type 0} → List ℕ → Value → MapReturnType → Operation F
get_by_key bin key return_type =
    map_operation OperationType.cdt_read default_ctx bin (map_op_code CdtMapOpType.get_by_key)
      (CdtArgument.byte (byte (map_return_code return_type)) ∷ CdtArgument.value key ∷ [])

unfoldable pub get_by_key_range :
    {F : Type 0} → List ℕ → Value → Value → MapReturnType → Operation F
get_by_key_range bin begin end return_type =
    map_operation OperationType.cdt_read default_ctx bin
      (map_op_code CdtMapOpType.get_by_key_interval)
      (CdtArgument.byte (byte (map_return_code return_type))
        ∷ CdtArgument.value begin
        ∷ (unless_nil end))

unfoldable pub get_by_value : {F : Type 0} → List ℕ → Value → MapReturnType → Operation F
get_by_value bin value return_type =
    map_operation OperationType.cdt_read default_ctx bin (map_op_code CdtMapOpType.get_by_value)
      (CdtArgument.byte (byte (map_return_code return_type)) ∷ CdtArgument.value value ∷ [])

unfoldable pub get_by_value_range :
    {F : Type 0} → List ℕ → Value → Value → MapReturnType → Operation F
get_by_value_range bin begin end return_type =
    map_operation OperationType.cdt_read default_ctx bin
      (map_op_code CdtMapOpType.get_by_value_interval)
      (CdtArgument.byte (byte (map_return_code return_type))
        ∷ CdtArgument.value begin
        ∷ (unless_nil end))

unfoldable pub get_by_index : {F : Type 0} → List ℕ → ℤ → MapReturnType → Operation F
get_by_index bin index return_type =
    map_operation OperationType.cdt_read default_ctx bin (map_op_code CdtMapOpType.get_by_index)
      (CdtArgument.byte (byte (map_return_code return_type)) ∷ CdtArgument.int index ∷ [])

unfoldable pub get_by_index_range : {F : Type 0} → List ℕ → ℤ → ℤ → MapReturnType → Operation F
get_by_index_range bin index count return_type =
    map_operation OperationType.cdt_read default_ctx bin
      (map_op_code CdtMapOpType.get_by_index_range)
      (CdtArgument.byte (byte (map_return_code return_type))
        ∷ CdtArgument.int index
        ∷ CdtArgument.int count
        ∷ [])

unfoldable pub get_by_index_range_from : {F : Type 0} → List ℕ → ℤ → MapReturnType → Operation F
get_by_index_range_from bin index return_type =
    map_operation OperationType.cdt_read default_ctx bin
      (map_op_code CdtMapOpType.get_by_index_range)
      (CdtArgument.byte (byte (map_return_code return_type)) ∷ CdtArgument.int index ∷ [])

unfoldable pub get_by_rank : {F : Type 0} → List ℕ → ℤ → MapReturnType → Operation F
get_by_rank bin rank return_type =
    map_operation OperationType.cdt_read default_ctx bin (map_op_code CdtMapOpType.get_by_rank)
      (CdtArgument.byte (byte (map_return_code return_type)) ∷ CdtArgument.int rank ∷ [])

unfoldable pub get_by_rank_range : {F : Type 0} → List ℕ → ℤ → ℤ → MapReturnType → Operation F
get_by_rank_range bin rank count return_type =
    map_operation OperationType.cdt_read default_ctx bin
      (map_op_code CdtMapOpType.get_by_rank_range)
      (CdtArgument.byte (byte (map_return_code return_type))
        ∷ CdtArgument.int rank
        ∷ CdtArgument.int count
        ∷ [])

unfoldable pub get_by_rank_range_from : {F : Type 0} → List ℕ → ℤ → MapReturnType → Operation F
get_by_rank_range_from bin rank return_type =
    map_operation OperationType.cdt_read default_ctx bin
      (map_op_code CdtMapOpType.get_by_rank_range)
      (CdtArgument.byte (byte (map_return_code return_type)) ∷ CdtArgument.int rank ∷ [])

unfoldable pub get_by_key_list : {F : Type 0} → List ℕ → Values → MapReturnType → Operation F
get_by_key_list bin keys return_type =
    map_operation OperationType.cdt_read default_ctx bin (map_op_code CdtMapOpType.get_by_key_list)
      (CdtArgument.byte (byte (map_return_code return_type)) ∷ CdtArgument.list keys ∷ [])

unfoldable pub get_by_value_list : {F : Type 0} → List ℕ → Values → MapReturnType → Operation F
get_by_value_list bin vals return_type =
    map_operation OperationType.cdt_read default_ctx bin
      (map_op_code CdtMapOpType.get_by_value_list)
      (CdtArgument.byte (byte (map_return_code return_type)) ∷ CdtArgument.list vals ∷ [])

unfoldable pub get_by_key_relative_index_range :
    {F : Type 0} → List ℕ → Value → ℤ → MapReturnType → Operation F
get_by_key_relative_index_range bin key index return_type =
    map_operation OperationType.cdt_read default_ctx bin
      (map_op_code CdtMapOpType.get_by_key_rel_index_range)
      (CdtArgument.byte (byte (map_return_code return_type))
        ∷ CdtArgument.value key
        ∷ CdtArgument.int index
        ∷ [])

unfoldable pub get_by_key_relative_index_range_count :
    {F : Type 0} → List ℕ → Value → ℤ → ℤ → MapReturnType → Operation F
get_by_key_relative_index_range_count bin key index count return_type =
    map_operation OperationType.cdt_read default_ctx bin
      (map_op_code CdtMapOpType.get_by_key_rel_index_range)
      (CdtArgument.byte (byte (map_return_code return_type))
        ∷ CdtArgument.value key
        ∷ CdtArgument.int index
        ∷ CdtArgument.int count
        ∷ [])

unfoldable pub get_by_value_relative_rank_range :
    {F : Type 0} → List ℕ → Value → ℤ → MapReturnType → Operation F
get_by_value_relative_rank_range bin value rank return_type =
    map_operation OperationType.cdt_read default_ctx bin
      (map_op_code CdtMapOpType.get_by_value_rel_rank_range)
      (CdtArgument.byte (byte (map_return_code return_type))
        ∷ CdtArgument.value value
        ∷ CdtArgument.int rank
        ∷ [])

unfoldable pub get_by_value_relative_rank_range_count :
    {F : Type 0} → List ℕ → Value → ℤ → ℤ → MapReturnType → Operation F
get_by_value_relative_rank_range_count bin value rank count return_type =
    map_operation OperationType.cdt_read default_ctx bin
      (map_op_code CdtMapOpType.get_by_value_rel_rank_range)
      (CdtArgument.byte (byte (map_return_code return_type))
        ∷ CdtArgument.value value
        ∷ CdtArgument.int rank
        ∷ CdtArgument.int count
        ∷ [])
