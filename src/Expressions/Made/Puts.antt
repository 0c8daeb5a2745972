-- ===== src/Expressions/Made/Puts.antt =====
-- expressions/maps.rs: `put` and `put_items`, whose code and arguments depend on the write mode.
use aerospike_client_rust.Base.{◌≡◌, refl, ℕ, Bool, true, false, List, [], ◌∷◌, ◌++◌, if◌then◌else◌}
use aerospike_client_rust.Msgpack.Format.{IsPackable}
use aerospike_client_rust.Msgpack.Packed.Cdt.{ContextsPackable}
use aerospike_client_rust.Operations.{CdtContext}
use aerospike_client_rust.Operations.MapTypes.{
  MapPolicy, MapWriteMode, map_op_code, map_order_code, map_write_op, write_op,
}
use aerospike_client_rust.Expressions.ExpType.{ExpType}
use aerospike_client_rust.Expressions.Filter.{FilterExpression, ExpressionArgument, argument_list}
use aerospike_client_rust.Expressions.Maps
use aerospike_client_rust.Expressions.Calls.{modify, call, int_argument, add_map_write}
use aerospike_client_rust.Expressions.WellFormed.{
  IsCommand, IsGiven, AreArguments, IsBin, HasNoContext, IsExpression, EachIsArgument,
}
use aerospike_client_rust.Expressions.Made.Shape.{
  first_code, flags_for, IsRightCall, map_reads, IsRightMap, one_context,
}

-- The call with a code that writes, with or without the order behind the other arguments.
put_call-IsRight :
    (op order : ℕ) (b : Bool) (type : ExpType) (bin : FilterExpression) (ctx : List CdtContext)
    (front : List ExpressionArgument)
    → map_reads op ≡ false
    → ContextsPackable ctx
    → HasNoContext (argument_list (front ++ (int_argument order ∷ [])))
    → HasNoContext (argument_list front)
    → EachIsArgument (argument_list (front ++ (int_argument order ∷ [])))
    → EachIsArgument (argument_list front)
    → IsExpression bin
    → IsRightMap (
        call 64 type bin (
          if b
          then ExpressionArgument.context ctx ∷ int_argument op ∷ front
          else ExpressionArgument.context ctx
            ∷ int_argument op
            ∷ (front ++ (int_argument order ∷ []))))
unfolding IsRightCall call argument_list int_argument first_code flags_for HasNoContext
    EachIsArgument IsPackable IsExpression IsCommand IsGiven AreArguments IsBin
put_call-IsRight op order true type bin ctx front e h c c' a a' k =
    ((tt, tt, (one_context ctx _ h c', (tt, a')), k), rw e refl)
put_call-IsRight op order false type bin ctx front e h c c' a a' k =
    ((tt, tt, (one_context ctx _ h c, (tt, a)), k), rw e refl)

write_op-writes :
    (mode : MapWriteMode) (multi : Bool) → map_reads (map_op_code (write_op mode multi)) ≡ false
unfolding map_reads write_op map_op_code
write_op-writes MapWriteMode.update true = refl
write_op-writes MapWriteMode.update false = refl
write_op-writes MapWriteMode.update_only true = refl
write_op-writes MapWriteMode.update_only false = refl
write_op-writes MapWriteMode.create_only true = refl
write_op-writes MapWriteMode.create_only false = refl

pub put-IsRight :
    (policy : MapPolicy) (key value bin : FilterExpression) (ctx : List CdtContext)
    → IsExpression key
    → IsExpression value
    → IsExpression bin
    → ContextsPackable ctx
    → IsRightMap (Maps.put policy key value bin ctx)
unfolding Maps.put add_map_write modify map_write_op argument_list HasNoContext EachIsArgument
    int_argument IsPackable
put-IsRight policy key value bin ctx h k l c =
    put_call-IsRight (map_op_code (map_write_op policy false)) (map_order_code policy.order) _ _ bin
      ctx
      (ExpressionArgument.filter_expression key ∷ ExpressionArgument.filter_expression value ∷ [])
      (write_op-writes policy.write_mode false) c tt tt (h, (k, (tt, tt))) (h, (k, tt)) l

pub put_items-IsRight :
    (policy : MapPolicy) (map bin : FilterExpression) (ctx : List CdtContext)
    → IsExpression map
    → IsExpression bin
    → ContextsPackable ctx
    → IsRightMap (Maps.put_items policy map bin ctx)
unfolding Maps.put_items add_map_write modify map_write_op argument_list HasNoContext EachIsArgument
    int_argument IsPackable
put_items-IsRight policy map bin ctx h l c =
    put_call-IsRight (map_op_code (map_write_op policy true)) (map_order_code policy.order) _ _ bin
      ctx (ExpressionArgument.filter_expression map ∷ []) (write_op-writes policy.write_mode true) c
      tt tt (h, (tt, tt)) (h, tt) l
