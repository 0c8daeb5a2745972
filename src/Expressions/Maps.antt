-- ===== src/Expressions/Maps.antt =====
-- expressions/maps.rs: the expressions that modify.
use aerospike_client_rust.Base.{true, false, Option, List, [], ◌∷◌, ◌++◌, ◌==◌, if◌then◌else◌}
use aerospike_client_rust.Operations.{CdtContext}
use aerospike_client_rust.Expressions.Filter.{FilterExpression, ExpressionArgument}
use aerospike_client_rust.Expressions.Calls.{int_argument, or_nil, optional_argument}
use aerospike_client_rust.Operations.MapTypes.{
  CdtMapOpType, MapPolicy, MapReturnType, map_op_code, map_order_code, map_return_code,
  map_write_op,
}
use aerospike_client_rust.Expressions.Calls.{add_map_write}

unfoldable pub put :
    MapPolicy
    → FilterExpression
    → FilterExpression
    → FilterExpression
    → List CdtContext
    → FilterExpression
put policy key value bin ctx =
    let op = map_write_op policy false in
    let front =
      ExpressionArgument.context ctx
      ∷ int_argument (map_op_code op)
      ∷ ExpressionArgument.filter_expression key
      ∷ ExpressionArgument.filter_expression value
      ∷ [] in
    add_map_write bin ctx (
      if map_op_code op == map_op_code CdtMapOpType.replace
      then front
      else front ++ (int_argument (map_order_code policy.order) ∷ []))

unfoldable pub put_items :
    MapPolicy → FilterExpression → FilterExpression → List CdtContext → FilterExpression
put_items policy map bin ctx =
    let op = map_write_op policy true in
    let front =
      ExpressionArgument.context ctx
      ∷ int_argument (map_op_code op)
      ∷ ExpressionArgument.filter_expression map
      ∷ [] in
    add_map_write bin ctx (
      if map_op_code op == map_op_code CdtMapOpType.replace
      then front
      else front ++ (int_argument (map_order_code policy.order) ∷ []))

unfoldable pub increment :
    MapPolicy
    → FilterExpression
    → FilterExpression
    → FilterExpression
    → List CdtContext
    → FilterExpression
increment policy key incr bin ctx = add_map_write bin ctx (
    int_argument (map_op_code CdtMapOpType.increment)
    ∷ ExpressionArgument.filter_expression key
    ∷ ExpressionArgument.filter_expression incr
    ∷ ExpressionArgument.context ctx
    ∷ int_argument (map_order_code policy.order)
    ∷ [])

unfoldable pub clear : FilterExpression → List CdtContext → FilterExpression
clear bin ctx =
    add_map_write bin ctx
      (int_argument (map_op_code CdtMapOpType.clear) ∷ ExpressionArgument.context ctx ∷ [])

unfoldable pub remove_by_key :
    FilterExpression → FilterExpression → List CdtContext → FilterExpression
remove_by_key key bin ctx = add_map_write bin ctx (
    int_argument (map_op_code CdtMapOpType.remove_by_key)
    ∷ int_argument (map_return_code MapReturnType.none)
    ∷ ExpressionArgument.filter_expression key
    ∷ ExpressionArgument.context ctx
    ∷ [])

unfoldable pub remove_by_key_list :
    FilterExpression → FilterExpression → List CdtContext → FilterExpression
remove_by_key_list keys bin ctx = add_map_write bin ctx (
    int_argument (map_op_code CdtMapOpType.remove_key_list)
    ∷ int_argument (map_return_code MapReturnType.none)
    ∷ ExpressionArgument.filter_expression keys
    ∷ ExpressionArgument.context ctx
    ∷ [])

unfoldable pub remove_by_key_range :
    Option FilterExpression
    → Option FilterExpression
    → FilterExpression
    → List CdtContext
    → FilterExpression
remove_by_key_range key_begin key_end bin ctx = add_map_write bin ctx (
    ExpressionArgument.context ctx
    ∷ int_argument (map_op_code CdtMapOpType.remove_by_key_interval)
    ∷ int_argument (map_return_code MapReturnType.none)
    ∷ ExpressionArgument.filter_expression (or_nil key_begin)
    ∷ optional_argument key_end)

unfoldable pub remove_by_key_relative_index_range :
    FilterExpression → FilterExpression → FilterExpression → List CdtContext → FilterExpression
remove_by_key_relative_index_range key index bin ctx = add_map_write bin ctx (
    int_argument (map_op_code CdtMapOpType.remove_by_key_rel_index_range)
    ∷ int_argument (map_return_code MapReturnType.none)
    ∷ ExpressionArgument.filter_expression key
    ∷ ExpressionArgument.filter_expression index
    ∷ ExpressionArgument.context ctx
    ∷ [])

unfoldable pub remove_by_key_relative_index_range_count :
    FilterExpression
    → FilterExpression
    → FilterExpression
    → FilterExpression
    → List CdtContext
    → FilterExpression
remove_by_key_relative_index_range_count key index count bin ctx = add_map_write bin ctx (
    int_argument (map_op_code CdtMapOpType.remove_by_key_rel_index_range)
    ∷ int_argument (map_return_code MapReturnType.none)
    ∷ ExpressionArgument.filter_expression key
    ∷ ExpressionArgument.filter_expression index
    ∷ ExpressionArgument.filter_expression count
    ∷ ExpressionArgument.context ctx
    ∷ [])

unfoldable pub remove_by_value :
    FilterExpression → FilterExpression → List CdtContext → FilterExpression
remove_by_value value bin ctx = add_map_write bin ctx (
    int_argument (map_op_code CdtMapOpType.remove_by_value)
    ∷ int_argument (map_return_code MapReturnType.none)
    ∷ ExpressionArgument.filter_expression value
    ∷ ExpressionArgument.context ctx
    ∷ [])

unfoldable pub remove_by_value_list :
    FilterExpression → FilterExpression → List CdtContext → FilterExpression
remove_by_value_list vals bin ctx = add_map_write bin ctx (
    int_argument (map_op_code CdtMapOpType.remove_value_list)
    ∷ int_argument (map_return_code MapReturnType.none)
    ∷ ExpressionArgument.filter_expression vals
    ∷ ExpressionArgument.context ctx
    ∷ [])

unfoldable pub remove_by_value_range :
    Option FilterExpression
    → Option FilterExpression
    → FilterExpression
    → List CdtContext
    → FilterExpression
remove_by_value_range value_begin value_end bin ctx = add_map_write bin ctx (
    ExpressionArgument.context ctx
    ∷ int_argument (map_op_code CdtMapOpType.remove_by_value_interval)
    ∷ int_argument (map_return_code MapReturnType.none)
    ∷ ExpressionArgument.filter_expression (or_nil value_begin)
    ∷ optional_argument value_end)

unfoldable pub remove_by_value_relative_rank_range :
    FilterExpression → FilterExpression → FilterExpression → List CdtContext → FilterExpression
remove_by_value_relative_rank_range value rank bin ctx = add_map_write bin ctx (
    int_argument (map_op_code CdtMapOpType.remove_by_value_rel_rank_range)
    ∷ int_argument (map_return_code MapReturnType.none)
    ∷ ExpressionArgument.filter_expression value
    ∷ ExpressionArgument.filter_expression rank
    ∷ ExpressionArgument.context ctx
    ∷ [])

unfoldable pub remove_by_value_relative_rank_range_count :
    FilterExpression
    → FilterExpression
    → FilterExpression
    → FilterExpression
    → List CdtContext
    → FilterExpression
remove_by_value_relative_rank_range_count value rank count bin ctx = add_map_write bin ctx (
    int_argument (map_op_code CdtMapOpType.remove_by_value_rel_rank_range)
    ∷ int_argument (map_return_code MapReturnType.none)
    ∷ ExpressionArgument.filter_expression value
    ∷ ExpressionArgument.filter_expression rank
    ∷ ExpressionArgument.filter_expression count
    ∷ ExpressionArgument.context ctx
    ∷ [])

unfoldable pub remove_by_index :
    FilterExpression → FilterExpression → List CdtContext → FilterExpression
remove_by_index index bin ctx = add_map_write bin ctx (
    int_argument (map_op_code CdtMapOpType.remove_by_index)
    ∷ int_argument (map_return_code MapReturnType.none)
    ∷ ExpressionArgument.filter_expression index
    ∷ ExpressionArgument.context ctx
    ∷ [])

unfoldable pub remove_by_index_range :
    FilterExpression → FilterExpression → List CdtContext → FilterExpression
remove_by_index_range index bin ctx = add_map_write bin ctx (
    int_argument (map_op_code CdtMapOpType.remove_by_index_range)
    ∷ int_argument (map_return_code MapReturnType.none)
    ∷ ExpressionArgument.filter_expression index
    ∷ ExpressionArgument.context ctx
    ∷ [])

unfoldable pub remove_by_index_range_count :
    FilterExpression → FilterExpression → FilterExpression → List CdtContext → FilterExpression
remove_by_index_range_count index count bin ctx = add_map_write bin ctx (
    int_argument (map_op_code CdtMapOpType.remove_by_index_range)
    ∷ int_argument (map_return_code MapReturnType.none)
    ∷ ExpressionArgument.filter_expression index
    ∷ ExpressionArgument.filter_expression count
    ∷ ExpressionArgument.context ctx
    ∷ [])

unfoldable pub remove_by_rank :
    FilterExpression → FilterExpression → List CdtContext → FilterExpression
remove_by_rank rank bin ctx = add_map_write bin ctx (
    int_argument (map_op_code CdtMapOpType.remove_by_rank)
    ∷ int_argument (map_return_code MapReturnType.none)
    ∷ ExpressionArgument.filter_expression rank
    ∷ ExpressionArgument.context ctx
    ∷ [])

unfoldable pub remove_by_rank_range :
    FilterExpression → FilterExpression → List CdtContext → FilterExpression
remove_by_rank_range rank bin ctx = add_map_write bin ctx (
    int_argument (map_op_code CdtMapOpType.remove_by_rank_range)
    ∷ int_argument (map_return_code MapReturnType.none)
    ∷ ExpressionArgument.filter_expression rank
    ∷ ExpressionArgument.context ctx
    ∷ [])

unfoldable pub remove_by_rank_range_count :
    FilterExpression → FilterExpression → FilterExpression → List CdtContext → FilterExpression
remove_by_rank_range_count rank count bin ctx = add_map_write bin ctx (
    int_argument (map_op_code CdtMapOpType.remove_by_rank_range)
    ∷ int_argument (map_return_code MapReturnType.none)
    ∷ ExpressionArgument.filter_expression rank
    ∷ ExpressionArgument.filter_expression count
    ∷ ExpressionArgument.context ctx
    ∷ [])
