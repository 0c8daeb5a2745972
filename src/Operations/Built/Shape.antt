-- ===== src/Operations/Built/Shape.antt =====
-- operations/: what is right for an operation, and the arguments that the builders share.
use aerospike_client_rust.Base.{
  ◌≡◌, refl, Bool, true, false, Option, none, some, List, [], ◌∷◌, ◌++◌, ltb, leb, ◌&&◌,
  if◌then◌else◌, from_option,
}
use mathlib.Core.Option
use aerospike_client_rust.Outcome.{ok, panic, ok-injective, no_panic}
use aerospike_client_rust.Buffer.Endian.{Endian}
use aerospike_client_rust.Value.{Value, is_nil}
use aerospike_client_rust.Msgpack.Format.{IsPackable}
use aerospike_client_rust.Msgpack.Packed.Cdt.{ArgsPackable}
use aerospike_client_rust.Operations.{CdtArgument, OperationType}
use aerospike_client_rust.Operations.CdtBuilder.{unless_nil}
use aerospike_client_rust.Operations.BitTypes.{BitwiseResizeFlags, resize_code}
use aerospike_client_rust.Operations.MapTypes.{
  MapWriteMode, MapOrder, MapPolicy, map_op_code, map_write_op, write_op, map_order_arg, order_arg,
}
use aerospike_client_rust.Operations.Whole.{Operation, OperationData, ExpressionEncoder}
use aerospike_client_rust.Expressions.{Expressions}
use aerospike_client_rust.Commands.Built.Operations.{IsCarried}

unfoldable pub exp_type : ExpressionEncoder → OperationType
exp_type ExpressionEncoder.pack_write_exp = OperationType.exp_write
exp_type ExpressionEncoder.pack_read_exp = OperationType.exp_read

-- The codes that only read: 16 to 31 on lists, from 96 on maps, from 50 on bits and HLL values.
unfoldable pub IsRightType : {F : Type 0} → OperationData F → OperationType → Type 0
IsRightType (OperationData.cdt_list_op c) type =
    type ≡ (if leb 16 c.op && ltb c.op 32 then OperationType.cdt_read else OperationType.cdt_write)
IsRightType (OperationData.cdt_map_op c) type =
    type ≡ (if leb 96 c.op then OperationType.cdt_read else OperationType.cdt_write)
IsRightType (OperationData.cdt_bit_op c) type =
    type ≡ (if leb 50 c.op then OperationType.bit_read else OperationType.bit_write)
IsRightType (OperationData.hll_op c) type =
    type ≡ (if leb 50 c.op then OperationType.hll_read else OperationType.hll_write)
IsRightType (OperationData.exp_op e) type = type ≡ exp_type e.encoder
IsRightType _ type = Unit {0}

module _ ⦃endian : Endian⦄ ⦃exprs : Expressions⦄ where
  open exprs use {FilterExpression}

  -- The arguments can be packed, and the type of the operation says whether its code only reads.
  unfoldable pub IsRight : Operation FilterExpression → Type 0
  IsRight op = IsCarried op.ctx op.op_data × IsRightType op.op_data op.op

-- What a builder returns behind an assertion.
pub guarded : {A : Type 0} (b : Bool) {a x : A} → (if b then panic else ok a) ≡ ok x → a ≡ x
guarded true e = absurd (no_panic e)
guarded false e = ok-injective e

pub packable-append :
    (xs ys : List CdtArgument) → ArgsPackable xs → ArgsPackable ys → ArgsPackable (xs ++ ys)
packable-append [] ys h k = k
packable-append (x ∷ xs) ys h k = (h.0, packable-append xs ys h.1 k)

pub unless_nil-IsPackable : (v : Value) → IsPackable v → ArgsPackable (unless_nil v)
unfolding unless_nil
unless_nil-IsPackable v h = if_args (is_nil v) h
  where
    if_args : (b : Bool) → IsPackable v → ArgsPackable (if b then [] else CdtArgument.value v ∷ [])
    if_args true h = tt
    if_args false h = (h, tt)

pub order-IsPackable : (policy : MapPolicy) → ArgsPackable (from_option (map_order_arg policy))
unfolding map_order_arg order_arg
order-IsPackable policy = by_mode policy.write_mode policy.order
  where
    by_mode :
        (mode : MapWriteMode) (order : MapOrder) → ArgsPackable (from_option (order_arg mode order))
    by_mode MapWriteMode.update_only order = tt
    by_mode _ order = (tt, tt)

pub resize-IsPackable :
    (flags : Option BitwiseResizeFlags)
    → ArgsPackable (from_option (Option.map (λ f. CdtArgument.byte (resize_code f)) flags))
resize-IsPackable none = tt
resize-IsPackable (some f) = (tt, tt)

pub signed-IsPackable :
    (signed : Bool) → ArgsPackable (if signed then CdtArgument.byte 1 ∷ [] else [])
signed-IsPackable true = (tt, tt)
signed-IsPackable false = tt

pub write_op-IsWrite :
    (policy : MapPolicy) (multi : Bool)
    → OperationType.cdt_write ≡ (
        if leb 96 (map_op_code (map_write_op policy multi))
        then OperationType.cdt_read
        else OperationType.cdt_write)
unfolding map_write_op write_op map_op_code
write_op-IsWrite policy multi = by_mode policy.write_mode multi
  where
    by_mode :
        (mode : MapWriteMode) (multi : Bool)
        → OperationType.cdt_write ≡ (
            if leb 96 (map_op_code (write_op mode multi))
            then OperationType.cdt_read
            else OperationType.cdt_write)
    by_mode MapWriteMode.update true = refl
    by_mode MapWriteMode.update false = refl
    by_mode MapWriteMode.update_only true = refl
    by_mode MapWriteMode.update_only false = refl
    by_mode MapWriteMode.create_only true = refl
    by_mode MapWriteMode.create_only false = refl
