-- ===== src/Expressions/ListQueries.antt =====
-- expressions/lists.rs: the expressions that read.
use aerospike_client_rust.Base.{Option, List, [], ◌∷◌, byte}
use aerospike_client_rust.Operations.{CdtContext}
use aerospike_client_rust.Expressions.ExpType.{ExpType}
use aerospike_client_rust.Expressions.Filter.{FilterExpression, ExpressionArgument}
use aerospike_client_rust.Expressions.Calls.{int_argument, or_nil, optional_argument}
use aerospike_client_rust.Operations.ListTypes.{
  CdtListOpType, ListReturnType, list_op_code, list_return_code,
}
use aerospike_client_rust.Expressions.Calls.{add_list_read, list_value_type}

unfoldable pub size : FilterExpression → List CdtContext → FilterExpression
size bin ctx =
    add_list_read bin ExpType.int
      (int_argument (list_op_code CdtListOpType.size) ∷ ExpressionArgument.context ctx ∷ [])

unfoldable pub get_by_value :
    ListReturnType → FilterExpression → FilterExpression → List CdtContext → FilterExpression
get_by_value return_type value bin ctx = add_list_read bin (list_value_type return_type) (
    int_argument (list_op_code CdtListOpType.get_by_value)
    ∷ int_argument (byte (list_return_code return_type))
    ∷ ExpressionArgument.filter_expression value
    ∷ ExpressionArgument.context ctx
    ∷ [])

unfoldable pub get_by_value_range :
    ListReturnType
    → Option FilterExpression
    → Option FilterExpression
    → FilterExpression
    → List CdtContext
    → FilterExpression
get_by_value_range return_type value_begin value_end bin ctx =
    add_list_read bin (list_value_type return_type) (
      ExpressionArgument.context ctx
      ∷ int_argument (list_op_code CdtListOpType.get_by_value_interval)
      ∷ int_argument (byte (list_return_code return_type))
      ∷ ExpressionArgument.filter_expression (or_nil value_begin)
      ∷ optional_argument value_end)

unfoldable pub get_by_value_list :
    ListReturnType → FilterExpression → FilterExpression → List CdtContext → FilterExpression
get_by_value_list return_type vals bin ctx = add_list_read bin (list_value_type return_type) (
    int_argument (list_op_code CdtListOpType.get_by_value_list)
    ∷ int_argument (byte (list_return_code return_type))
    ∷ ExpressionArgument.filter_expression vals
    ∷ ExpressionArgument.context ctx
    ∷ [])

unfoldable pub get_by_value_relative_rank_range :
    ListReturnType
    → FilterExpression
    → FilterExpression
    → FilterExpression
    → List CdtContext
    → FilterExpression
get_by_value_relative_rank_range return_type value rank bin ctx =
    add_list_read bin (list_value_type return_type) (
      int_argument (list_op_code CdtListOpType.get_by_value_rel_rank_range)
      ∷ int_argument (byte (list_return_code return_type))
      ∷ ExpressionArgument.filter_expression value
      ∷ ExpressionArgument.filter_expression rank
      ∷ ExpressionArgument.context ctx
      ∷ [])

unfoldable pub get_by_value_relative_rank_range_count :
    ListReturnType
    → FilterExpression
    → FilterExpression
    → FilterExpression
    → FilterExpression
    → List CdtContext
    → FilterExpression
get_by_value_relative_rank_range_count return_type value rank count bin ctx =
    add_list_read bin (list_value_type return_type) (
      int_argument (list_op_code CdtListOpType.get_by_value_rel_rank_range)
      ∷ int_argument (byte (list_return_code return_type))
      ∷ ExpressionArgument.filter_expression value
      ∷ ExpressionArgument.filter_expression rank
      ∷ ExpressionArgument.filter_expression count
      ∷ ExpressionArgument.context ctx
      ∷ [])

unfoldable pub get_by_index :
    ListReturnType
    → ExpType
    → FilterExpression
    → FilterExpression
    → List CdtContext
    → FilterExpression
get_by_index return_type value_type index bin ctx = add_list_read bin value_type (
    int_argument (list_op_code CdtListOpType.get_by_index)
    ∷ int_argument (byte (list_return_code return_type))
    ∷ ExpressionArgument.filter_expression index
    ∷ ExpressionArgument.context ctx
    ∷ [])

unfoldable pub get_by_index_range :
    ListReturnType → FilterExpression → FilterExpression → List CdtContext → FilterExpression
get_by_index_range return_type index bin ctx = add_list_read bin (list_value_type return_type) (
    int_argument (list_op_code CdtListOpType.get_by_index_range)
    ∷ int_argument (byte (list_return_code return_type))
    ∷ ExpressionArgument.filter_expression index
    ∷ ExpressionArgument.context ctx
    ∷ [])

unfoldable pub get_by_index_range_count :
    ListReturnType
    → FilterExpression
    → FilterExpression
    → FilterExpression
    → List CdtContext
    → FilterExpression
get_by_index_range_count return_type index count bin ctx =
    add_list_read bin (list_value_type return_type) (
      int_argument (list_op_code CdtListOpType.get_by_index_range)
      ∷ int_argument (byte (list_return_code return_type))
      ∷ ExpressionArgument.filter_expression index
      ∷ ExpressionArgument.filter_expression count
      ∷ ExpressionArgument.context ctx
      ∷ [])

unfoldable pub get_by_rank :
    ListReturnType
    → ExpType
    → FilterExpression
    → FilterExpression
    → List CdtContext
    → FilterExpression
get_by_rank return_type value_type rank bin ctx = add_list_read bin value_type (
    int_argument (list_op_code CdtListOpType.get_by_rank)
    ∷ int_argument (byte (list_return_code return_type))
    ∷ ExpressionArgument.filter_expression rank
    ∷ ExpressionArgument.context ctx
    ∷ [])

unfoldable pub get_by_rank_range :
    ListReturnType → FilterExpression → FilterExpression → List CdtContext → FilterExpression
get_by_rank_range return_type rank bin ctx = add_list_read bin (list_value_type return_type) (
    int_argument (list_op_code CdtListOpType.get_by_rank_range)
    ∷ int_argument (byte (list_return_code return_type))
    ∷ ExpressionArgument.filter_expression rank
    ∷ ExpressionArgument.context ctx
    ∷ [])

unfoldable pub get_by_rank_range_count :
    ListReturnType
    → FilterExpression
    → FilterExpression
    → FilterExpression
    → List CdtContext
    → FilterExpression
get_by_rank_range_count return_type rank count bin ctx =
    add_list_read bin (list_value_type return_type) (
      int_argument (list_op_code CdtListOpType.get_by_rank_range)
      ∷ int_argument (byte (list_return_code return_type))
      ∷ ExpressionArgument.filter_expression rank
      ∷ ExpressionArgument.filter_expression count
      ∷ ExpressionArgument.context ctx
      ∷ [])
