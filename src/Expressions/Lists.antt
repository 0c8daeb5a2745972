-- ===== src/Expressions/Lists.antt =====
-- expressions/lists.rs: the expressions that modify.
use aerospike_client_rust.Base.{Option, List, [], ◌∷◌}
use aerospike_client_rust.Operations.{CdtContext}
use aerospike_client_rust.Expressions.Filter.{FilterExpression, ExpressionArgument}
use aerospike_client_rust.Expressions.Calls.{int_argument, or_nil, optional_argument}
use aerospike_client_rust.Operations.ListTypes.{
  CdtListOpType, ListPolicy, ListReturnType, ListSortFlags, list_op_code, list_order_code,
  list_write_code, list_return_code, list_sort_code,
}
use aerospike_client_rust.Expressions.Calls.{add_list_write}

unfoldable pub append :
    ListPolicy → FilterExpression → FilterExpression → List CdtContext → FilterExpression
append policy value bin ctx = add_list_write bin ctx (
    int_argument (list_op_code CdtListOpType.append)
    ∷ ExpressionArgument.filter_expression value
    ∷ int_argument (list_order_code policy.attributes)
    ∷ int_argument (list_write_code policy.flags)
    ∷ ExpressionArgument.context ctx
    ∷ [])

unfoldable pub append_items :
    ListPolicy → FilterExpression → FilterExpression → List CdtContext → FilterExpression
append_items policy list bin ctx = add_list_write bin ctx (
    int_argument (list_op_code CdtListOpType.append_items)
    ∷ ExpressionArgument.filter_expression list
    ∷ int_argument (list_order_code policy.attributes)
    ∷ int_argument (list_write_code policy.flags)
    ∷ ExpressionArgument.context ctx
    ∷ [])

unfoldable pub insert :
    ListPolicy
    → FilterExpression
    → FilterExpression
    → FilterExpression
    → List CdtContext
    → FilterExpression
insert policy index value bin ctx = add_list_write bin ctx (
    int_argument (list_op_code CdtListOpType.insert)
    ∷ ExpressionArgument.filter_expression index
    ∷ ExpressionArgument.filter_expression value
    ∷ int_argument (list_write_code policy.flags)
    ∷ ExpressionArgument.context ctx
    ∷ [])

unfoldable pub insert_items :
    ListPolicy
    → FilterExpression
    → FilterExpression
    → FilterExpression
    → List CdtContext
    → FilterExpression
insert_items policy index list bin ctx = add_list_write bin ctx (
    int_argument (list_op_code CdtListOpType.insert_items)
    ∷ ExpressionArgument.filter_expression index
    ∷ ExpressionArgument.filter_expression list
    ∷ int_argument (list_write_code policy.flags)
    ∷ ExpressionArgument.context ctx
    ∷ [])

unfoldable pub increment :
    ListPolicy
    → FilterExpression
    → FilterExpression
    → FilterExpression
    → List CdtContext
    → FilterExpression
increment policy index value bin ctx = add_list_write bin ctx (
    int_argument (list_op_code CdtListOpType.increment)
    ∷ ExpressionArgument.filter_expression index
    ∷ ExpressionArgument.filter_expression value
    ∷ int_argument (list_order_code policy.attributes)
    ∷ int_argument (list_write_code policy.flags)
    ∷ ExpressionArgument.context ctx
    ∷ [])

unfoldable pub set :
    ListPolicy
    → FilterExpression
    → FilterExpression
    → FilterExpression
    → List CdtContext
    → FilterExpression
set policy index value bin ctx = add_list_write bin ctx (
    int_argument (list_op_code CdtListOpType.set)
    ∷ ExpressionArgument.filter_expression index
    ∷ ExpressionArgument.filter_expression value
    ∷ int_argument (list_write_code policy.flags)
    ∷ ExpressionArgument.context ctx
    ∷ [])

unfoldable pub clear : FilterExpression → List CdtContext → FilterExpression
clear bin ctx =
    add_list_write bin ctx
      (int_argument (list_op_code CdtListOpType.clear) ∷ ExpressionArgument.context ctx ∷ [])

unfoldable pub sort : ListSortFlags → FilterExpression → List CdtContext → FilterExpression
sort sort_flags bin ctx = add_list_write bin ctx (
    int_argument (list_op_code CdtListOpType.sort)
    ∷ int_argument (list_sort_code sort_flags)
    ∷ ExpressionArgument.context ctx
    ∷ [])

unfoldable pub remove_by_value :
    FilterExpression → FilterExpression → List CdtContext → FilterExpression
remove_by_value value bin ctx = add_list_write bin ctx (
    int_argument (list_op_code CdtListOpType.remove_by_value)
    ∷ int_argument (list_return_code ListReturnType.none)
    ∷ ExpressionArgument.filter_expression value
    ∷ ExpressionArgument.context ctx
    ∷ [])

unfoldable pub remove_by_value_list :
    FilterExpression → FilterExpression → List CdtContext → FilterExpression
remove_by_value_list vals bin ctx = add_list_write bin ctx (
    int_argument (list_op_code CdtListOpType.remove_by_value_list)
    ∷ int_argument (list_return_code ListReturnType.none)
    ∷ ExpressionArgument.filter_expression vals
    ∷ ExpressionArgument.context ctx
    ∷ [])

unfoldable pub remove_by_value_range :
    Option FilterExpression
    → Option FilterExpression
    → FilterExpression
    → List CdtContext
    → FilterExpression
remove_by_value_range value_begin value_end bin ctx = add_list_write bin ctx (
    ExpressionArgument.context ctx
    ∷ int_argument (list_op_code CdtListOpType.remove_by_value_interval)
    ∷ int_argument (list_return_code ListReturnType.none)
    ∷ ExpressionArgument.filter_expression (or_nil value_begin)
    ∷ optional_argument value_end)

unfoldable pub remove_by_value_relative_rank_range :
    FilterExpression → FilterExpression → FilterExpression → List CdtContext → FilterExpression
remove_by_value_relative_rank_range value rank bin ctx = add_list_write bin ctx (
    int_argument (list_op_code CdtListOpType.remove_by_value_rel_rank_range)
    ∷ int_argument (list_return_code ListReturnType.none)
    ∷ ExpressionArgument.filter_expression value
    ∷ ExpressionArgument.filter_expression rank
    ∷ ExpressionArgument.context ctx
    ∷ [])

unfoldable pub remove_by_value_relative_rank_range_count :
    FilterExpression
    → FilterExpression
    → FilterExpression
    → FilterExpression
    → List CdtContext
    → FilterExpression
remove_by_value_relative_rank_range_count value rank count bin ctx = add_list_write bin ctx (
    int_argument (list_op_code CdtListOpType.remove_by_value_rel_rank_range)
    ∷ int_argument (list_return_code ListReturnType.none)
    ∷ ExpressionArgument.filter_expression value
    ∷ ExpressionArgument.filter_expression rank
    ∷ ExpressionArgument.filter_expression count
    ∷ ExpressionArgument.context ctx
    ∷ [])

unfoldable pub remove_by_index :
    FilterExpression → FilterExpression → List CdtContext → FilterExpression
remove_by_index index bin ctx = add_list_write bin ctx (
    int_argument (list_op_code CdtListOpType.remove_by_index)
    ∷ int_argument (list_return_code ListReturnType.none)
    ∷ ExpressionArgument.filter_expression index
    ∷ ExpressionArgument.context ctx
    ∷ [])

unfoldable pub remove_by_index_range :
    FilterExpression → FilterExpression → List CdtContext → FilterExpression
remove_by_index_range index bin ctx = add_list_write bin ctx (
    int_argument (list_op_code CdtListOpType.remove_by_index_range)
    ∷ int_argument (list_return_code ListReturnType.none)
    ∷ ExpressionArgument.filter_expression index
    ∷ ExpressionArgument.context ctx
    ∷ [])

unfoldable pub remove_by_index_range_count :
    FilterExpression → FilterExpression → FilterExpression → List CdtContext → FilterExpression
remove_by_index_range_count index count bin ctx = add_list_write bin ctx (
    int_argument (list_op_code CdtListOpType.remove_by_index_range)
    ∷ int_argument (list_return_code ListReturnType.none)
    ∷ ExpressionArgument.filter_expression index
    ∷ ExpressionArgument.filter_expression count
    ∷ ExpressionArgument.context ctx
    ∷ [])

unfoldable pub remove_by_rank :
    FilterExpression → FilterExpression → List CdtContext → FilterExpression
remove_by_rank rank bin ctx = add_list_write bin ctx (
    int_argument (list_op_code CdtListOpType.remove_by_rank)
    ∷ int_argument (list_return_code ListReturnType.none)
    ∷ ExpressionArgument.filter_expression rank
    ∷ ExpressionArgument.context ctx
    ∷ [])

unfoldable pub remove_by_rank_range :
    FilterExpression → FilterExpression → List CdtContext → FilterExpression
remove_by_rank_range rank bin ctx = add_list_write bin ctx (
    int_argument (list_op_code CdtListOpType.remove_by_rank_range)
    ∷ int_argument (list_return_code ListReturnType.none)
    ∷ ExpressionArgument.filter_expression rank
    ∷ ExpressionArgument.context ctx
    ∷ [])

unfoldable pub remove_by_rank_range_count :
    FilterExpression → FilterExpression → FilterExpression → List CdtContext → FilterExpression
remove_by_rank_range_count rank count bin ctx = add_list_write bin ctx (
    int_argument (list_op_code CdtListOpType.remove_by_rank_range)
    ∷ int_argument (list_return_code ListReturnType.none)
    ∷ ExpressionArgument.filter_expression rank
    ∷ ExpressionArgument.filter_expression count
    ∷ ExpressionArgument.context ctx
    ∷ [])
