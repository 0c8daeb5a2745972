-- ===== src/Operations/Lists.antt =====
-- operations/lists.rs: the operations on lists that write.
use aerospike_client_rust.Base.{ℕ, ℤ, Bool, if◌then◌else◌, List, [], ◌∷◌, byte}
use aerospike_client_rust.Outcome.{Outcome, ok, panic}
use aerospike_client_rust.Value.{Value, Values, is_nil}
use aerospike_client_rust.Operations.{CdtContext, CdtArgument, OperationType}
use aerospike_client_rust.Operations.Whole.{Operation}
use aerospike_client_rust.Operations.Contexts.{default_ctx}
use aerospike_client_rust.Operations.CdtBuilder.{list_operation, is_empty_values}
use aerospike_client_rust.Operations.ListTypes.{
  CdtListOpType, ListOrderType, ListReturnType, ListSortFlags, ListPolicy, list_op_code,
  list_order_code, list_return_code, list_sort_code, list_write_code, list_order_flag,
}

unfoldable pub create : {F : Type 0} → List ℕ → ListOrderType → Bool → Operation F
create bin list_order pad =
    list_operation OperationType.cdt_write default_ctx bin (list_op_code CdtListOpType.set_type) (
      CdtArgument.byte (list_order_flag list_order pad)
      ∷ CdtArgument.byte (list_order_code list_order)
      ∷ [])

unfoldable pub set_order : {F : Type 0} → List ℕ → ListOrderType → List CdtContext → Operation F
set_order bin list_order ctx =
    list_operation OperationType.cdt_write ctx bin (list_op_code CdtListOpType.set_type)
      (CdtArgument.byte (list_order_code list_order) ∷ [])

unfoldable pub append : {F : Type 0} → ListPolicy → List ℕ → Value → Operation F
append policy bin value =
    list_operation OperationType.cdt_write default_ctx bin (list_op_code CdtListOpType.append) (
      CdtArgument.value value
      ∷ CdtArgument.byte (list_order_code policy.attributes)
      ∷ CdtArgument.byte (list_write_code policy.flags)
      ∷ [])

unfoldable pub append_items : {F : Type 0} → ListPolicy → List ℕ → Values → Outcome (Operation F)
append_items policy bin vals =
    if is_empty_values vals
    then panic
    else ok (
        list_operation OperationType.cdt_write default_ctx bin
          (list_op_code CdtListOpType.append_items)
          (CdtArgument.list vals
            ∷ CdtArgument.byte (list_order_code policy.attributes)
            ∷ CdtArgument.byte (list_write_code policy.flags)
            ∷ []))

unfoldable pub insert : {F : Type 0} → ListPolicy → List ℕ → ℤ → Value → Operation F
insert policy bin index value =
    list_operation OperationType.cdt_write default_ctx bin (list_op_code CdtListOpType.insert) (
      CdtArgument.int index
      ∷ CdtArgument.value value
      ∷ CdtArgument.byte (list_write_code policy.flags)
      ∷ [])

unfoldable pub insert_items :
    {F : Type 0} → ListPolicy → List ℕ → ℤ → Values → Outcome (Operation F)
insert_items policy bin index vals =
    if is_empty_values vals
    then panic
    else ok (
        list_operation OperationType.cdt_write default_ctx bin
          (list_op_code CdtListOpType.insert_items)
          (CdtArgument.int index
            ∷ CdtArgument.list vals
            ∷ CdtArgument.byte (list_write_code policy.flags)
            ∷ []))

unfoldable pub pop : {F : Type 0} → List ℕ → ℤ → Operation F
pop bin index =
    list_operation OperationType.cdt_write default_ctx bin (list_op_code CdtListOpType.pop)
      (CdtArgument.int index ∷ [])

unfoldable pub pop_range : {F : Type 0} → List ℕ → ℤ → ℤ → Operation F
pop_range bin index count =
    list_operation OperationType.cdt_write default_ctx bin (list_op_code CdtListOpType.pop_range)
      (CdtArgument.int index ∷ CdtArgument.int count ∷ [])

unfoldable pub pop_range_from : {F : Type 0} → List ℕ → ℤ → Operation F
pop_range_from bin index =
    list_operation OperationType.cdt_write default_ctx bin (list_op_code CdtListOpType.pop_range)
      (CdtArgument.int index ∷ [])

unfoldable pub remove : {F : Type 0} → List ℕ → ℤ → Operation F
remove bin index =
    list_operation OperationType.cdt_write default_ctx bin (list_op_code CdtListOpType.remove)
      (CdtArgument.int index ∷ [])

unfoldable pub remove_range : {F : Type 0} → List ℕ → ℤ → ℤ → Operation F
remove_range bin index count =
    list_operation OperationType.cdt_write default_ctx bin (list_op_code CdtListOpType.remove_range)
      (CdtArgument.int index ∷ CdtArgument.int count ∷ [])

unfoldable pub remove_range_from : {F : Type 0} → List ℕ → ℤ → Operation F
remove_range_from bin index =
    list_operation OperationType.cdt_write default_ctx bin (list_op_code CdtListOpType.remove_range)
      (CdtArgument.int index ∷ [])

unfoldable pub remove_by_value : {F : Type 0} → List ℕ → Value → ListReturnType → Operation F
remove_by_value bin value return_type =
    list_operation OperationType.cdt_write default_ctx bin
      (list_op_code CdtListOpType.remove_by_value)
      (CdtArgument.byte (byte (list_return_code return_type)) ∷ CdtArgument.value value ∷ [])

unfoldable pub remove_by_value_list : {F : Type 0} → List ℕ → Values → ListReturnType → Operation F
remove_by_value_list bin vals return_type =
    list_operation OperationType.cdt_write default_ctx bin
      (list_op_code CdtListOpType.remove_by_value_list)
      (CdtArgument.byte (byte (list_return_code return_type)) ∷ CdtArgument.list vals ∷ [])

unfoldable pub remove_by_value_range :
    {F : Type 0} → List ℕ → ListReturnType → Value → Value → Operation F
remove_by_value_range bin return_type begin end =
    list_operation OperationType.cdt_write default_ctx bin
      (list_op_code CdtListOpType.remove_by_value_interval)
      (CdtArgument.byte (byte (list_return_code return_type))
        ∷ CdtArgument.value begin
        ∷ CdtArgument.value end
        ∷ [])

unfoldable pub remove_by_value_relative_rank_range :
    {F : Type 0} → List ℕ → ListReturnType → Value → ℤ → Operation F
remove_by_value_relative_rank_range bin return_type value rank =
    list_operation OperationType.cdt_write default_ctx bin
      (list_op_code CdtListOpType.remove_by_value_rel_rank_range)
      (CdtArgument.byte (byte (list_return_code return_type))
        ∷ CdtArgument.value value
        ∷ CdtArgument.int rank
        ∷ [])

unfoldable pub remove_by_value_relative_rank_range_count :
    {F : Type 0} → List ℕ → ListReturnType → Value → ℤ → ℤ → Operation F
remove_by_value_relative_rank_range_count bin return_type value rank count =
    list_operation OperationType.cdt_write default_ctx bin
      (list_op_code CdtListOpType.remove_by_value_rel_rank_range)
      (CdtArgument.byte (byte (list_return_code return_type))
        ∷ CdtArgument.value value
        ∷ CdtArgument.int rank
        ∷ CdtArgument.int count
        ∷ [])

unfoldable pub remove_by_index : {F : Type 0} → List ℕ → ℤ → ListReturnType → Operation F
remove_by_index bin index return_type =
    list_operation OperationType.cdt_write default_ctx bin
      (list_op_code CdtListOpType.remove_by_index)
      (CdtArgument.byte (byte (list_return_code return_type)) ∷ CdtArgument.int index ∷ [])

unfoldable pub remove_by_index_range : {F : Type 0} → List ℕ → ℤ → ListReturnType → Operation F
remove_by_index_range bin index return_type =
    list_operation OperationType.cdt_write default_ctx bin
      (list_op_code CdtListOpType.remove_by_index_range)
      (CdtArgument.byte (byte (list_return_code return_type)) ∷ CdtArgument.int index ∷ [])

unfoldable pub remove_by_index_range_count :
    {F : Type 0} → List ℕ → ℤ → ℤ → ListReturnType → Operation F
remove_by_index_range_count bin index count return_type =
    list_operation OperationType.cdt_write default_ctx bin
      (list_op_code CdtListOpType.remove_by_index_range)
      (CdtArgument.byte (byte (list_return_code return_type))
        ∷ CdtArgument.int index
        ∷ CdtArgument.int count
        ∷ [])

unfoldable pub remove_by_rank : {F : Type 0} → List ℕ → ℤ → ListReturnType → Operation F
remove_by_rank bin rank return_type =
    list_operation OperationType.cdt_write default_ctx bin
      (list_op_code CdtListOpType.remove_by_rank)
      (CdtArgument.byte (byte (list_return_code return_type)) ∷ CdtArgument.int rank ∷ [])

unfoldable pub remove_by_rank_range : {F : Type 0} → List ℕ → ℤ → ListReturnType → Operation F
remove_by_rank_range bin rank return_type =
    list_operation OperationType.cdt_write default_ctx bin
      (list_op_code CdtListOpType.remove_by_rank_range)
      (CdtArgument.byte (byte (list_return_code return_type)) ∷ CdtArgument.int rank ∷ [])

unfoldable pub remove_by_rank_range_count :
    {F : Type 0} → List ℕ → ℤ → ℤ → ListReturnType → Operation F
remove_by_rank_range_count bin rank count return_type =
    list_operation OperationType.cdt_write default_ctx bin
      (list_op_code CdtListOpType.remove_by_rank_range)
      (CdtArgument.byte (byte (list_return_code return_type))
        ∷ CdtArgument.int rank
        ∷ CdtArgument.int count
        ∷ [])

unfoldable pub set : {F : Type 0} → List ℕ → ℤ → Value → Outcome (Operation F)
set bin index value =
    if is_nil value
    then panic
    else ok (
        list_operation OperationType.cdt_write default_ctx bin (list_op_code CdtListOpType.set)
          (CdtArgument.int index ∷ CdtArgument.value value ∷ []))

unfoldable pub trim : {F : Type 0} → List ℕ → ℤ → ℤ → Operation F
trim bin index count =
    list_operation OperationType.cdt_write default_ctx bin (list_op_code CdtListOpType.trim)
      (CdtArgument.int index ∷ CdtArgument.int count ∷ [])

unfoldable pub clear : {F : Type 0} → List ℕ → Operation F
clear bin =
    list_operation OperationType.cdt_write default_ctx bin (list_op_code CdtListOpType.clear) []

unfoldable pub increment : {F : Type 0} → ListPolicy → List ℕ → ℤ → ℤ → Operation F
increment policy bin index value =
    list_operation OperationType.cdt_write default_ctx bin (list_op_code CdtListOpType.increment) (
      CdtArgument.int index
      ∷ CdtArgument.int value
      ∷ CdtArgument.byte (list_write_code policy.flags)
      ∷ [])

unfoldable pub sort : {F : Type 0} → List ℕ → ListSortFlags → Operation F
sort bin sort_flags =
    list_operation OperationType.cdt_write default_ctx bin (list_op_code CdtListOpType.sort)
      (CdtArgument.byte (list_sort_code sort_flags) ∷ [])
