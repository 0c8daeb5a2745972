-- ===== src/Operations/ListQueries.antt =====
-- operations/lists.rs: the operations on lists that read.
use aerospike_client_rust.Base.{ℕ, ℤ, List, [], ◌∷◌, byte}
use aerospike_client_rust.Value.{Value, Values}
use aerospike_client_rust.Operations.{CdtArgument, OperationType}
use aerospike_client_rust.Operations.Whole.{Operation}
use aerospike_client_rust.Operations.Contexts.{default_ctx}
use aerospike_client_rust.Operations.CdtBuilder.{list_operation}
use aerospike_client_rust.Operations.ListTypes.{
  CdtListOpType, ListReturnType, list_op_code, list_return_code,
}

unfoldable pub size : {F : Type 0} → List ℕ → Operation F
size bin =
    list_operation OperationType.cdt_read default_ctx bin (list_op_code CdtListOpType.size) []

unfoldable pub get : {F : Type 0} → List ℕ → ℤ → Operation F
get bin index =
    list_operation OperationType.cdt_read default_ctx bin (list_op_code CdtListOpType.get)
      (CdtArgument.int index ∷ [])

unfoldable pub get_range : {F : Type 0} → List ℕ → ℤ → ℤ → Operation F
get_range bin index count =
    list_operation OperationType.cdt_read default_ctx bin (list_op_code CdtListOpType.get_range)
      (CdtArgument.int index ∷ CdtArgument.int count ∷ [])

unfoldable pub get_range_from : {F : Type 0} → List ℕ → ℤ → Operation F
get_range_from bin index =
    list_operation OperationType.cdt_read default_ctx bin (list_op_code CdtListOpType.get_range)
      (CdtArgument.int index ∷ [])

unfoldable pub get_by_value : {F : Type 0} → List ℕ → Value → ListReturnType → Operation F
get_by_value bin value return_type =
    list_operation OperationType.cdt_read default_ctx bin (list_op_code CdtListOpType.get_by_value)
      (CdtArgument.byte (byte (list_return_code return_type)) ∷ CdtArgument.value value ∷ [])

unfoldable pub get_by_value_list : {F : Type 0} → List ℕ → Values → ListReturnType → Operation F
get_by_value_list bin vals return_type =
    list_operation OperationType.cdt_read default_ctx bin
      (list_op_code CdtListOpType.get_by_value_list)
      (CdtArgument.byte (byte (list_return_code return_type)) ∷ CdtArgument.list vals ∷ [])

unfoldable pub get_by_value_range :
    {F : Type 0} → List ℕ → Value → Value → ListReturnType → Operation F
get_by_value_range bin begin end return_type =
    list_operation OperationType.cdt_read default_ctx bin
      (list_op_code CdtListOpType.get_by_value_interval)
      (CdtArgument.byte (byte (list_return_code return_type))
        ∷ CdtArgument.value begin
        ∷ CdtArgument.value end
        ∷ [])

unfoldable pub get_by_index : {F : Type 0} → List ℕ → ℤ → ListReturnType → Operation F
get_by_index bin index return_type =
    list_operation OperationType.cdt_read default_ctx bin (list_op_code CdtListOpType.get_by_index)
      (CdtArgument.byte (byte (list_return_code return_type)) ∷ CdtArgument.int index ∷ [])

unfoldable pub get_by_index_range : {F : Type 0} → List ℕ → ℤ → ListReturnType → Operation F
get_by_index_range bin index return_type =
    list_operation OperationType.cdt_read default_ctx bin
      (list_op_code CdtListOpType.get_by_index_range)
      (CdtArgument.byte (byte (list_return_code return_type)) ∷ CdtArgument.int index ∷ [])

unfoldable pub get_by_index_range_count :
    {F : Type 0} → List ℕ → ℤ → ℤ → ListReturnType → Operation F
get_by_index_range_count bin index count return_type =
    list_operation OperationType.cdt_read default_ctx bin
      (list_op_code CdtListOpType.get_by_index_range)
      (CdtArgument.byte (byte (list_return_code return_type))
        ∷ CdtArgument.int index
        ∷ CdtArgument.int count
        ∷ [])

unfoldable pub get_by_rank : {F : Type 0} → List ℕ → ℤ → ListReturnType → Operation F
get_by_rank bin rank return_type =
    list_operation OperationType.cdt_read default_ctx bin (list_op_code CdtListOpType.get_by_rank)
      (CdtArgument.byte (byte (list_return_code return_type)) ∷ CdtArgument.int rank ∷ [])

unfoldable pub get_by_rank_range : {F : Type 0} → List ℕ → ℤ → ListReturnType → Operation F
get_by_rank_range bin rank return_type =
    list_operation OperationType.cdt_read default_ctx bin
      (list_op_code CdtListOpType.get_by_rank_range)
      (CdtArgument.byte (byte (list_return_code return_type)) ∷ CdtArgument.int rank ∷ [])

unfoldable pub get_by_rank_range_count :
    {F : Type 0} → List ℕ → ℤ → ℤ → ListReturnType → Operation F
get_by_rank_range_count bin rank count return_type =
    list_operation OperationType.cdt_read default_ctx bin
      (list_op_code CdtListOpType.get_by_rank_range)
      (CdtArgument.byte (byte (list_return_code return_type))
        ∷ CdtArgument.int rank
        ∷ CdtArgument.int count
        ∷ [])

unfoldable pub get_by_value_relative_rank_range :
    {F : Type 0} → List ℕ → Value → ℤ → ListReturnType → Operation F
get_by_value_relative_rank_range bin value rank return_type =
    list_operation OperationType.cdt_read default_ctx bin
      (list_op_code CdtListOpType.get_by_value_rel_rank_range)
      (CdtArgument.byte (byte (list_return_code return_type))
        ∷ CdtArgument.value value
        ∷ CdtArgument.int rank
        ∷ [])

unfoldable pub get_by_value_relative_rank_range_count :
    {F : Type 0} → List ℕ → Value → ℤ → ℤ → ListReturnType → Operation F
get_by_value_relative_rank_range_count bin value rank count return_type =
    list_operation OperationType.cdt_read default_ctx bin
      (list_op_code CdtListOpType.get_by_value_rel_rank_range)
      (CdtArgument.byte (byte (list_return_code return_type))
        ∷ CdtArgument.value value
        ∷ CdtArgument.int rank
        ∷ CdtArgument.int count
        ∷ [])
