-- ===== src/Operations/Bitwise.antt =====
-- operations/bitwise.rs: the operations on bits.
use aerospike_client_rust.Base.{
  ℕ, ℤ, Bool, if◌then◌else◌, Option, List, [], ◌∷◌, bit_or, from_option,
}
use mathlib.Core.Option
use aerospike_client_rust.Value.{Value}
use aerospike_client_rust.Operations.{CdtArgument, OperationType}
use aerospike_client_rust.Operations.Whole.{Operation}
use aerospike_client_rust.Operations.Contexts.{default_ctx}
use aerospike_client_rust.Operations.CdtBuilder.{bit_operation}
use aerospike_client_rust.Operations.BitTypes.{
  CdtBitwiseOpType, BitwiseResizeFlags, BitwiseOverflowActions, BitPolicy, bit_op_code, resize_code,
  overflow_code,
}

unfoldable pub resize :
    {F : Type 0} → List ℕ → ℤ → Option BitwiseResizeFlags → BitPolicy → Operation F
resize bin byte_size resize_flags policy =
    bit_operation OperationType.bit_write default_ctx bin (bit_op_code CdtBitwiseOpType.resize) (
      CdtArgument.int byte_size
      ∷ CdtArgument.byte policy.flags
      ∷ (from_option (Option.map (λ flags. CdtArgument.byte (resize_code flags)) resize_flags)))

unfoldable pub insert : {F : Type 0} → List ℕ → ℤ → Value → BitPolicy → Operation F
insert bin byte_offset value policy =
    bit_operation OperationType.bit_write default_ctx bin (bit_op_code CdtBitwiseOpType.insert)
      (CdtArgument.int byte_offset ∷ CdtArgument.value value ∷ CdtArgument.byte policy.flags ∷ [])

unfoldable pub remove : {F : Type 0} → List ℕ → ℤ → ℤ → BitPolicy → Operation F
remove bin byte_offset byte_size policy =
    bit_operation OperationType.bit_write default_ctx bin (bit_op_code CdtBitwiseOpType.remove)
      (CdtArgument.int byte_offset ∷ CdtArgument.int byte_size ∷ CdtArgument.byte policy.flags ∷ [])

unfoldable pub set : {F : Type 0} → List ℕ → ℤ → ℤ → Value → BitPolicy → Operation F
set bin bit_offset bit_size value policy =
    bit_operation OperationType.bit_write default_ctx bin (bit_op_code CdtBitwiseOpType.set) (
      CdtArgument.int bit_offset
      ∷ CdtArgument.int bit_size
      ∷ CdtArgument.value value
      ∷ CdtArgument.byte policy.flags
      ∷ [])

unfoldable pub or : {F : Type 0} → List ℕ → ℤ → ℤ → Value → BitPolicy → Operation F
or bin bit_offset bit_size value policy =
    bit_operation OperationType.bit_write default_ctx bin (bit_op_code CdtBitwiseOpType.or) (
      CdtArgument.int bit_offset
      ∷ CdtArgument.int bit_size
      ∷ CdtArgument.value value
      ∷ CdtArgument.byte policy.flags
      ∷ [])

unfoldable pub xor : {F : Type 0} → List ℕ → ℤ → ℤ → Value → BitPolicy → Operation F
xor bin bit_offset bit_size value policy =
    bit_operation OperationType.bit_write default_ctx bin (bit_op_code CdtBitwiseOpType.xor) (
      CdtArgument.int bit_offset
      ∷ CdtArgument.int bit_size
      ∷ CdtArgument.value value
      ∷ CdtArgument.byte policy.flags
      ∷ [])

unfoldable pub and : {F : Type 0} → List ℕ → ℤ → ℤ → Value → BitPolicy → Operation F
and bin bit_offset bit_size value policy =
    bit_operation OperationType.bit_write default_ctx bin (bit_op_code CdtBitwiseOpType.and) (
      CdtArgument.int bit_offset
      ∷ CdtArgument.int bit_size
      ∷ CdtArgument.value value
      ∷ CdtArgument.byte policy.flags
      ∷ [])

unfoldable pub not : {F : Type 0} → List ℕ → ℤ → ℤ → BitPolicy → Operation F
not bin bit_offset bit_size policy =
    bit_operation OperationType.bit_write default_ctx bin (bit_op_code CdtBitwiseOpType.not)
      (CdtArgument.int bit_offset ∷ CdtArgument.int bit_size ∷ CdtArgument.byte policy.flags ∷ [])

unfoldable pub lshift : {F : Type 0} → List ℕ → ℤ → ℤ → ℤ → BitPolicy → Operation F
lshift bin bit_offset bit_size shift policy =
    bit_operation OperationType.bit_write default_ctx bin (bit_op_code CdtBitwiseOpType.l_shift) (
      CdtArgument.int bit_offset
      ∷ CdtArgument.int bit_size
      ∷ CdtArgument.int shift
      ∷ CdtArgument.byte policy.flags
      ∷ [])

unfoldable pub rshift : {F : Type 0} → List ℕ → ℤ → ℤ → ℤ → BitPolicy → Operation F
rshift bin bit_offset bit_size shift policy =
    bit_operation OperationType.bit_write default_ctx bin (bit_op_code CdtBitwiseOpType.r_shift) (
      CdtArgument.int bit_offset
      ∷ CdtArgument.int bit_size
      ∷ CdtArgument.int shift
      ∷ CdtArgument.byte policy.flags
      ∷ [])

unfoldable pub add :
    {F : Type 0} → List ℕ → ℤ → ℤ → ℤ → Bool → BitwiseOverflowActions → BitPolicy → Operation F
add bin bit_offset bit_size value signed action policy =
    bit_operation OperationType.bit_write default_ctx bin (bit_op_code CdtBitwiseOpType.add) (
      CdtArgument.int bit_offset
      ∷ CdtArgument.int bit_size
      ∷ CdtArgument.int value
      ∷ CdtArgument.byte policy.flags
      ∷ CdtArgument.byte (if signed then bit_or (overflow_code action) 1 else overflow_code action)
      ∷ [])

unfoldable pub subtract :
    {F : Type 0} → List ℕ → ℤ → ℤ → ℤ → Bool → BitwiseOverflowActions → BitPolicy → Operation F
subtract bin bit_offset bit_size value signed action policy =
    bit_operation OperationType.bit_write default_ctx bin (bit_op_code CdtBitwiseOpType.subtract) (
      CdtArgument.int bit_offset
      ∷ CdtArgument.int bit_size
      ∷ CdtArgument.int value
      ∷ CdtArgument.byte policy.flags
      ∷ CdtArgument.byte (if signed then bit_or (overflow_code action) 1 else overflow_code action)
      ∷ [])

unfoldable pub set_int : {F : Type 0} → List ℕ → ℤ → ℤ → ℤ → BitPolicy → Operation F
set_int bin bit_offset bit_size value policy =
    bit_operation OperationType.bit_write default_ctx bin (bit_op_code CdtBitwiseOpType.set_int) (
      CdtArgument.int bit_offset
      ∷ CdtArgument.int bit_size
      ∷ CdtArgument.int value
      ∷ CdtArgument.byte policy.flags
      ∷ [])

unfoldable pub get : {F : Type 0} → List ℕ → ℤ → ℤ → Operation F
get bin bit_offset bit_size =
    bit_operation OperationType.bit_read default_ctx bin (bit_op_code CdtBitwiseOpType.get)
      (CdtArgument.int bit_offset ∷ CdtArgument.int bit_size ∷ [])

unfoldable pub count : {F : Type 0} → List ℕ → ℤ → ℤ → Operation F
count bin bit_offset bit_size =
    bit_operation OperationType.bit_read default_ctx bin (bit_op_code CdtBitwiseOpType.count)
      (CdtArgument.int bit_offset ∷ CdtArgument.int bit_size ∷ [])

unfoldable pub lscan : {F : Type 0} → List ℕ → ℤ → ℤ → Bool → Operation F
lscan bin bit_offset bit_size value =
    bit_operation OperationType.bit_read default_ctx bin (bit_op_code CdtBitwiseOpType.l_scan)
      (CdtArgument.int bit_offset ∷ CdtArgument.int bit_size ∷ CdtArgument.bool value ∷ [])

unfoldable pub rscan : {F : Type 0} → List ℕ → ℤ → ℤ → Bool → Operation F
rscan bin bit_offset bit_size value =
    bit_operation OperationType.bit_read default_ctx bin (bit_op_code CdtBitwiseOpType.r_scan)
      (CdtArgument.int bit_offset ∷ CdtArgument.int bit_size ∷ CdtArgument.bool value ∷ [])

unfoldable pub get_int : {F : Type 0} → List ℕ → ℤ → ℤ → Bool → Operation F
get_int bin bit_offset bit_size signed =
    bit_operation OperationType.bit_read default_ctx bin (bit_op_code CdtBitwiseOpType.get_int) (
      CdtArgument.int bit_offset
      ∷ CdtArgument.int bit_size
      ∷ ((if signed then CdtArgument.byte 1 ∷ [] else [])))
