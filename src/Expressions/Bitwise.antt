-- ===== src/Expressions/Bitwise.antt =====
-- expressions/bitwise.rs: the expressions.
use aerospike_client_rust.Base.{Bool, [], ◌∷◌, bit_or, if◌then◌else◌}
use aerospike_client_rust.Expressions.ExpType.{ExpType}
use aerospike_client_rust.Expressions.Filter.{FilterExpression, ExpressionArgument}
use aerospike_client_rust.Expressions.Calls.{int_argument}
use aerospike_client_rust.Operations.BitTypes.{
  BitPolicy, BitwiseOverflowActions, BitwiseResizeFlags, overflow_code, resize_code,
}
use aerospike_client_rust.Expressions.Calls.{add_bit_read, add_bit_write}
use aerospike_client_rust.Expressions.CallOps.{BitExpOp, bit_exp_code}

unfoldable pub resize :
    BitPolicy → FilterExpression → BitwiseResizeFlags → FilterExpression → FilterExpression
resize policy byte_size resize_flags bin = add_bit_write bin (
    int_argument (bit_exp_code BitExpOp.resize)
    ∷ ExpressionArgument.filter_expression byte_size
    ∷ int_argument policy.flags
    ∷ int_argument (resize_code resize_flags)
    ∷ [])

unfoldable pub insert :
    BitPolicy → FilterExpression → FilterExpression → FilterExpression → FilterExpression
insert policy byte_offset value bin = add_bit_write bin (
    int_argument (bit_exp_code BitExpOp.insert)
    ∷ ExpressionArgument.filter_expression byte_offset
    ∷ ExpressionArgument.filter_expression value
    ∷ int_argument policy.flags
    ∷ [])

unfoldable pub remove :
    BitPolicy → FilterExpression → FilterExpression → FilterExpression → FilterExpression
remove policy byte_offset byte_size bin = add_bit_write bin (
    int_argument (bit_exp_code BitExpOp.remove)
    ∷ ExpressionArgument.filter_expression byte_offset
    ∷ ExpressionArgument.filter_expression byte_size
    ∷ int_argument policy.flags
    ∷ [])

unfoldable pub set :
    BitPolicy
    → FilterExpression
    → FilterExpression
    → FilterExpression
    → FilterExpression
    → FilterExpression
set policy bit_offset bit_size value bin = add_bit_write bin (
    int_argument (bit_exp_code BitExpOp.set)
    ∷ ExpressionArgument.filter_expression bit_offset
    ∷ ExpressionArgument.filter_expression bit_size
    ∷ ExpressionArgument.filter_expression value
    ∷ int_argument policy.flags
    ∷ [])

unfoldable pub or :
    BitPolicy
    → FilterExpression
    → FilterExpression
    → FilterExpression
    → FilterExpression
    → FilterExpression
or policy bit_offset bit_size value bin = add_bit_write bin (
    int_argument (bit_exp_code BitExpOp.or)
    ∷ ExpressionArgument.filter_expression bit_offset
    ∷ ExpressionArgument.filter_expression bit_size
    ∷ ExpressionArgument.filter_expression value
    ∷ int_argument policy.flags
    ∷ [])

unfoldable pub xor :
    BitPolicy
    → FilterExpression
    → FilterExpression
    → FilterExpression
    → FilterExpression
    → FilterExpression
xor policy bit_offset bit_size value bin = add_bit_write bin (
    int_argument (bit_exp_code BitExpOp.xor)
    ∷ ExpressionArgument.filter_expression bit_offset
    ∷ ExpressionArgument.filter_expression bit_size
    ∷ ExpressionArgument.filter_expression value
    ∷ int_argument policy.flags
    ∷ [])

unfoldable pub and :
    BitPolicy
    → FilterExpression
    → FilterExpression
    → FilterExpression
    → FilterExpression
    → FilterExpression
and policy bit_offset bit_size value bin = add_bit_write bin (
    int_argument (bit_exp_code BitExpOp.and)
    ∷ ExpressionArgument.filter_expression bit_offset
    ∷ ExpressionArgument.filter_expression bit_size
    ∷ ExpressionArgument.filter_expression value
    ∷ int_argument policy.flags
    ∷ [])

unfoldable pub not :
    BitPolicy → FilterExpression → FilterExpression → FilterExpression → FilterExpression
not policy bit_offset bit_size bin = add_bit_write bin (
    int_argument (bit_exp_code BitExpOp.not)
    ∷ ExpressionArgument.filter_expression bit_offset
    ∷ ExpressionArgument.filter_expression bit_size
    ∷ int_argument policy.flags
    ∷ [])

unfoldable pub lshift :
    BitPolicy
    → FilterExpression
    → FilterExpression
    → FilterExpression
    → FilterExpression
    → FilterExpression
lshift policy bit_offset bit_size shift bin = add_bit_write bin (
    int_argument (bit_exp_code BitExpOp.l_shift)
    ∷ ExpressionArgument.filter_expression bit_offset
    ∷ ExpressionArgument.filter_expression bit_size
    ∷ ExpressionArgument.filter_expression shift
    ∷ int_argument policy.flags
    ∷ [])

unfoldable pub rshift :
    BitPolicy
    → FilterExpression
    → FilterExpression
    → FilterExpression
    → FilterExpression
    → FilterExpression
rshift policy bit_offset bit_size shift bin = add_bit_write bin (
    int_argument (bit_exp_code BitExpOp.r_shift)
    ∷ ExpressionArgument.filter_expression bit_offset
    ∷ ExpressionArgument.filter_expression bit_size
    ∷ ExpressionArgument.filter_expression shift
    ∷ int_argument policy.flags
    ∷ [])

unfoldable pub add :
    BitPolicy
    → FilterExpression
    → FilterExpression
    → FilterExpression
    → Bool
    → BitwiseOverflowActions
    → FilterExpression
    → FilterExpression
add policy bit_offset bit_size value signed action bin = add_bit_write bin (
    int_argument (bit_exp_code BitExpOp.add)
    ∷ ExpressionArgument.filter_expression bit_offset
    ∷ ExpressionArgument.filter_expression bit_size
    ∷ ExpressionArgument.filter_expression value
    ∷ int_argument policy.flags
    ∷ int_argument (if signed then bit_or (overflow_code action) 1 else overflow_code action)
    ∷ [])

unfoldable pub subtract :
    BitPolicy
    → FilterExpression
    → FilterExpression
    → FilterExpression
    → Bool
    → BitwiseOverflowActions
    → FilterExpression
    → FilterExpression
subtract policy bit_offset bit_size value signed action bin = add_bit_write bin (
    int_argument (bit_exp_code BitExpOp.subtract)
    ∷ ExpressionArgument.filter_expression bit_offset
    ∷ ExpressionArgument.filter_expression bit_size
    ∷ ExpressionArgument.filter_expression value
    ∷ int_argument policy.flags
    ∷ int_argument (if signed then bit_or (overflow_code action) 1 else overflow_code action)
    ∷ [])

unfoldable pub set_int :
    BitPolicy
    → FilterExpression
    → FilterExpression
    → FilterExpression
    → FilterExpression
    → FilterExpression
set_int policy bit_offset bit_size value bin = add_bit_write bin (
    int_argument (bit_exp_code BitExpOp.set_int)
    ∷ ExpressionArgument.filter_expression bit_offset
    ∷ ExpressionArgument.filter_expression bit_size
    ∷ ExpressionArgument.filter_expression value
    ∷ int_argument policy.flags
    ∷ [])

unfoldable pub get : FilterExpression → FilterExpression → FilterExpression → FilterExpression
get bit_offset bit_size bin = add_bit_read bin ExpType.blob (
    int_argument (bit_exp_code BitExpOp.get)
    ∷ ExpressionArgument.filter_expression bit_offset
    ∷ ExpressionArgument.filter_expression bit_size
    ∷ [])

unfoldable pub count : FilterExpression → FilterExpression → FilterExpression → FilterExpression
count bit_offset bit_size bin = add_bit_read bin ExpType.int (
    int_argument (bit_exp_code BitExpOp.count)
    ∷ ExpressionArgument.filter_expression bit_offset
    ∷ ExpressionArgument.filter_expression bit_size
    ∷ [])

unfoldable pub lscan :
    FilterExpression → FilterExpression → FilterExpression → FilterExpression → FilterExpression
lscan bit_offset bit_size value bin = add_bit_read bin ExpType.int (
    int_argument (bit_exp_code BitExpOp.l_scan)
    ∷ ExpressionArgument.filter_expression bit_offset
    ∷ ExpressionArgument.filter_expression bit_size
    ∷ ExpressionArgument.filter_expression value
    ∷ [])

unfoldable pub rscan :
    FilterExpression → FilterExpression → FilterExpression → FilterExpression → FilterExpression
rscan bit_offset bit_size value bin = add_bit_read bin ExpType.int (
    int_argument (bit_exp_code BitExpOp.r_scan)
    ∷ ExpressionArgument.filter_expression bit_offset
    ∷ ExpressionArgument.filter_expression bit_size
    ∷ ExpressionArgument.filter_expression value
    ∷ [])

unfoldable pub get_int :
    FilterExpression → FilterExpression → Bool → FilterExpression → FilterExpression
get_int bit_offset bit_size signed bin = add_bit_read bin ExpType.int (
    int_argument (bit_exp_code BitExpOp.get_int)
    ∷ ExpressionArgument.filter_expression bit_offset
    ∷ ExpressionArgument.filter_expression bit_size
    ∷ (if signed then int_argument 1 ∷ [] else []))
