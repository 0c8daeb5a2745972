-- ===== src/Expressions/Hll.antt =====
-- expressions/hll.rs: the expressions.
use aerospike_client_rust.Base.{negsuc, [], ◌∷◌}
use aerospike_client_rust.Expressions.ExpType.{ExpType}
use aerospike_client_rust.Expressions.Filter.{FilterExpression, ExpressionArgument}
use aerospike_client_rust.Expressions.Values
use aerospike_client_rust.Expressions.Calls.{int_argument}
use aerospike_client_rust.Operations.HllTypes.{HllPolicy, hll_write_code}
use aerospike_client_rust.Expressions.Calls.{add_hll_read, add_hll_write}
use aerospike_client_rust.Expressions.CallOps.{HllExpOp, hll_exp_code}

unfoldable pub init_with_min_hash :
    HllPolicy → FilterExpression → FilterExpression → FilterExpression → FilterExpression
init_with_min_hash policy index_bit_count min_hash_count bin = add_hll_write bin (
    int_argument (hll_exp_code HllExpOp.init)
    ∷ ExpressionArgument.filter_expression index_bit_count
    ∷ ExpressionArgument.filter_expression min_hash_count
    ∷ int_argument (hll_write_code policy.flags)
    ∷ [])

unfoldable pub add_with_index_and_min_hash :
    HllPolicy
    → FilterExpression
    → FilterExpression
    → FilterExpression
    → FilterExpression
    → FilterExpression
add_with_index_and_min_hash policy list index_bit_count min_hash_count bin = add_hll_write bin (
    int_argument (hll_exp_code HllExpOp.add)
    ∷ ExpressionArgument.filter_expression list
    ∷ ExpressionArgument.filter_expression index_bit_count
    ∷ ExpressionArgument.filter_expression min_hash_count
    ∷ int_argument (hll_write_code policy.flags)
    ∷ [])

unfoldable pub get_count : FilterExpression → FilterExpression
get_count bin = add_hll_read bin ExpType.int (int_argument (hll_exp_code HllExpOp.count) ∷ [])

unfoldable pub get_union : FilterExpression → FilterExpression → FilterExpression
get_union list bin =
    add_hll_read bin ExpType.hll
      (int_argument (hll_exp_code HllExpOp.union) ∷ ExpressionArgument.filter_expression list ∷ [])

unfoldable pub get_union_count : FilterExpression → FilterExpression → FilterExpression
get_union_count list bin = add_hll_read bin ExpType.int (
    int_argument (hll_exp_code HllExpOp.union_count)
    ∷ ExpressionArgument.filter_expression list
    ∷ [])

unfoldable pub get_intersect_count : FilterExpression → FilterExpression → FilterExpression
get_intersect_count list bin = add_hll_read bin ExpType.int (
    int_argument (hll_exp_code HllExpOp.intersect_count)
    ∷ ExpressionArgument.filter_expression list
    ∷ [])

unfoldable pub get_similarity : FilterExpression → FilterExpression → FilterExpression
get_similarity list bin = add_hll_read bin ExpType.float (
    int_argument (hll_exp_code HllExpOp.similarity)
    ∷ ExpressionArgument.filter_expression list
    ∷ [])

unfoldable pub describe : FilterExpression → FilterExpression
describe bin = add_hll_read bin ExpType.list (int_argument (hll_exp_code HllExpOp.describe) ∷ [])

unfoldable pub may_contain : FilterExpression → FilterExpression → FilterExpression
may_contain list bin = add_hll_read bin ExpType.int (
    int_argument (hll_exp_code HllExpOp.may_contain)
    ∷ ExpressionArgument.filter_expression list
    ∷ [])

unfoldable pub init : HllPolicy → FilterExpression → FilterExpression → FilterExpression
init policy index_bit_count bin =
    init_with_min_hash policy index_bit_count (Values.int_val (negsuc 0)) bin

unfoldable pub add : HllPolicy → FilterExpression → FilterExpression → FilterExpression
add policy list bin =
    add_with_index_and_min_hash policy list (Values.int_val (negsuc 0)) (Values.int_val (negsuc 0))
      bin

unfoldable pub add_with_index :
    HllPolicy → FilterExpression → FilterExpression → FilterExpression → FilterExpression
add_with_index policy list index_bit_count bin =
    add_with_index_and_min_hash policy list index_bit_count (Values.int_val (negsuc 0)) bin
