-- ===== src/Expressions/Calls.antt =====
-- expressions/lists.rs, maps.rs, bitwise.rs and hll.rs: `add_read` and `add_write`, the calls of a
-- module of the server, and the arguments that their builders share.
use aerospike_client_rust.Base.{
  ℕ, pos, Option, none, some, List, [], ◌∷◌, bit_and, bit_or, ◌-◌, ◌||◌, byte, ◌==◌, if◌then◌else◌,
}
use aerospike_client_rust.Value.{Value}
use aerospike_client_rust.Operations.{CdtContext}
use aerospike_client_rust.Operations.Contexts.{CtxType, ctx_code}
use aerospike_client_rust.Operations.ListTypes.{ListReturnType, list_return_code}
use aerospike_client_rust.Operations.MapTypes.{MapReturnType, map_return_code}
use aerospike_client_rust.Expressions.ExpOp.{ExpOp}
use aerospike_client_rust.Expressions.ExpType.{ExpType}
use aerospike_client_rust.Expressions.Filter.{
  FilterExpression, expression, OptionalBin, OptionalExps, OptionalArguments, ExpressionArgument,
  argument_list,
}
use aerospike_client_rust.Expressions.Values

unfoldable pub modify : ℕ
modify = 0x40

unfoldable pub call : ℕ → ExpType → FilterExpression → List ExpressionArgument → FilterExpression
call flags type bin args =
    expression (some ExpOp.call) none (OptionalBin.bin bin) (some (pos flags)) (some type)
      OptionalExps.no_exps (OptionalArguments.arguments (argument_list args))

-- The type of what a write returns: that of the outermost container.
unfoldable pub outer_type : ExpType → List CdtContext → ExpType
outer_type type [] = type
outer_type type (c ∷ ctx) =
    if bit_and c.id (ctx_code CtxType.list_index) == 0 then ExpType.map else ExpType.list

unfoldable pub int_argument : ℕ → ExpressionArgument
int_argument n = ExpressionArgument.value (Value.int (pos n))

-- `nil()` stands for a bound that is not given.
unfoldable pub or_nil : Option FilterExpression → FilterExpression
or_nil none = Values.nil
or_nil (some e) = e

unfoldable pub optional_argument : Option FilterExpression → List ExpressionArgument
optional_argument none = []
optional_argument (some e) = ExpressionArgument.filter_expression e ∷ []

-- `MODULE`, which is 0, and `MODULE | MODIFY`
unfoldable pub add_list_read :
    FilterExpression → ExpType → List ExpressionArgument → FilterExpression
add_list_read bin type args = call 0 type bin args

unfoldable pub add_list_write :
    FilterExpression → List CdtContext → List ExpressionArgument → FilterExpression
add_list_write bin ctx args = call (bit_or 0 modify) (outer_type ExpType.list ctx) bin args

-- `!(ListReturnType::Inverted as u8)` has all bits set.
unfoldable pub list_value_type : ListReturnType → ExpType
list_value_type return_type =
    if bit_and (byte (list_return_code return_type))
        (255 - byte (list_return_code ListReturnType.inverted))
      == list_return_code ListReturnType.values
    then ExpType.list
    else ExpType.int

unfoldable pub add_map_read :
    FilterExpression → ExpType → List ExpressionArgument → FilterExpression
add_map_read bin type args = call 0 type bin args

unfoldable pub add_map_write :
    FilterExpression → List CdtContext → List ExpressionArgument → FilterExpression
add_map_write bin ctx args = call (bit_or 0 modify) (outer_type ExpType.map ctx) bin args

unfoldable pub map_value_type : MapReturnType → ExpType
map_value_type return_type =
    let t =
      bit_and (byte (map_return_code return_type))
        (255 - byte (map_return_code MapReturnType.inverted)) in
    if t == map_return_code MapReturnType.key || t == map_return_code MapReturnType.value
    then ExpType.list
    else if t == map_return_code MapReturnType.key_value
    then ExpType.map
    else ExpType.int

unfoldable pub add_bit_write : FilterExpression → List ExpressionArgument → FilterExpression
add_bit_write bin args = call (bit_or 1 modify) ExpType.blob bin args

unfoldable pub add_bit_read :
    FilterExpression → ExpType → List ExpressionArgument → FilterExpression
add_bit_read bin type args = call 1 type bin args

unfoldable pub add_hll_read :
    FilterExpression → ExpType → List ExpressionArgument → FilterExpression
add_hll_read bin type args = call 2 type bin args

unfoldable pub add_hll_write : FilterExpression → List ExpressionArgument → FilterExpression
add_hll_write bin args = call (bit_or 2 modify) ExpType.hll bin args
