-- ===== src/Operations/Built/Bits.antt =====
-- The operations that operations/bitwise.rs builds, each with what it needs of its arguments.
use aerospike_client_rust.Base.{refl, ℕ, ℤ, Bool, Option, List}
use aerospike_client_rust.Buffer.Endian.{Endian}
use aerospike_client_rust.Value.{Value}
use aerospike_client_rust.Msgpack.Format.{IsPackable}
use aerospike_client_rust.Operations.BitTypes.{
  BitwiseResizeFlags, BitwiseOverflowActions, BitPolicy, bit_op_code,
}
use aerospike_client_rust.Operations.Bitwise
use aerospike_client_rust.Operations.Whole.{Operation}
use aerospike_client_rust.Expressions.{Expressions}
use aerospike_client_rust.Commands.Built.Operations.{IsCarried}
use aerospike_client_rust.Operations.Built.Shape.{
  IsRight, IsRightType, resize-IsPackable, signed-IsPackable,
}

pub data IsBitOperation (F : Type 0) : Operation F → Type 0 where
  resize :
      (bin : List ℕ) (byte_size : ℤ) (resize_flags : Option BitwiseResizeFlags) (policy : BitPolicy)
      → IsBitOperation F (Bitwise.resize bin byte_size resize_flags policy)
  insert :
      (bin : List ℕ) (byte_offset : ℤ) (value : Value) (policy : BitPolicy)
      → IsPackable value
      → IsBitOperation F (Bitwise.insert bin byte_offset value policy)
  remove :
      (bin : List ℕ) (byte_offset byte_size : ℤ) (policy : BitPolicy)
      → IsBitOperation F (Bitwise.remove bin byte_offset byte_size policy)
  set :
      (bin : List ℕ) (bit_offset bit_size : ℤ) (value : Value) (policy : BitPolicy)
      → IsPackable value
      → IsBitOperation F (Bitwise.set bin bit_offset bit_size value policy)
  or :
      (bin : List ℕ) (bit_offset bit_size : ℤ) (value : Value) (policy : BitPolicy)
      → IsPackable value
      → IsBitOperation F (Bitwise.or bin bit_offset bit_size value policy)
  xor :
      (bin : List ℕ) (bit_offset bit_size : ℤ) (value : Value) (policy : BitPolicy)
      → IsPackable value
      → IsBitOperation F (Bitwise.xor bin bit_offset bit_size value policy)
  and :
      (bin : List ℕ) (bit_offset bit_size : ℤ) (value : Value) (policy : BitPolicy)
      → IsPackable value
      → IsBitOperation F (Bitwise.and bin bit_offset bit_size value policy)
  not :
      (bin : List ℕ) (bit_offset bit_size : ℤ) (policy : BitPolicy)
      → IsBitOperation F (Bitwise.not bin bit_offset bit_size policy)
  lshift :
      (bin : List ℕ) (bit_offset bit_size shift : ℤ) (policy : BitPolicy)
      → IsBitOperation F (Bitwise.lshift bin bit_offset bit_size shift policy)
  rshift :
      (bin : List ℕ) (bit_offset bit_size shift : ℤ) (policy : BitPolicy)
      → IsBitOperation F (Bitwise.rshift bin bit_offset bit_size shift policy)
  add :
      (bin : List ℕ) (bit_offset bit_size value : ℤ) (signed : Bool)
      (action : BitwiseOverflowActions) (policy : BitPolicy)
      → IsBitOperation F (Bitwise.add bin bit_offset bit_size value signed action policy)
  subtract :
      (bin : List ℕ) (bit_offset bit_size value : ℤ) (signed : Bool)
      (action : BitwiseOverflowActions) (policy : BitPolicy)
      → IsBitOperation F (Bitwise.subtract bin bit_offset bit_size value signed action policy)
  set_int :
      (bin : List ℕ) (bit_offset bit_size value : ℤ) (policy : BitPolicy)
      → IsBitOperation F (Bitwise.set_int bin bit_offset bit_size value policy)
  get :
      (bin : List ℕ) (bit_offset bit_size : ℤ)
      → IsBitOperation F (Bitwise.get bin bit_offset bit_size)
  count :
      (bin : List ℕ) (bit_offset bit_size : ℤ)
      → IsBitOperation F (Bitwise.count bin bit_offset bit_size)
  lscan :
      (bin : List ℕ) (bit_offset bit_size : ℤ) (value : Bool)
      → IsBitOperation F (Bitwise.lscan bin bit_offset bit_size value)
  rscan :
      (bin : List ℕ) (bit_offset bit_size : ℤ) (value : Bool)
      → IsBitOperation F (Bitwise.rscan bin bit_offset bit_size value)
  get_int :
      (bin : List ℕ) (bit_offset bit_size : ℤ) (signed : Bool)
      → IsBitOperation F (Bitwise.get_int bin bit_offset bit_size signed)

module _ ⦃endian : Endian⦄ ⦃exprs : Expressions⦄ where
  open exprs use {FilterExpression}

  pub bit_operation-IsRight :
      (op : Operation FilterExpression) → IsBitOperation FilterExpression op → IsRight op
  unfolding Bitwise.resize Bitwise.insert Bitwise.remove Bitwise.set Bitwise.or Bitwise.xor
      Bitwise.and Bitwise.not Bitwise.lshift Bitwise.rshift Bitwise.add Bitwise.subtract
      Bitwise.set_int Bitwise.get Bitwise.count Bitwise.lscan Bitwise.rscan Bitwise.get_int IsRight
      IsCarried IsRightType bit_op_code
  bit_operation-IsRight _ (IsBitOperation.resize _ _ _ _) =
      (((tt, (tt, resize-IsPackable _)), tt), refl)
  bit_operation-IsRight _ (IsBitOperation.insert _ _ _ _ h0) = (((tt, (h0, (tt, tt))), tt), refl)
  bit_operation-IsRight _ (IsBitOperation.remove _ _ _ _) = (((tt, (tt, (tt, tt))), tt), refl)
  bit_operation-IsRight _ (IsBitOperation.set _ _ _ _ _ h0) =
      (((tt, (tt, (h0, (tt, tt)))), tt), refl)
  bit_operation-IsRight _ (IsBitOperation.or _ _ _ _ _ h0) =
      (((tt, (tt, (h0, (tt, tt)))), tt), refl)
  bit_operation-IsRight _ (IsBitOperation.xor _ _ _ _ _ h0) =
      (((tt, (tt, (h0, (tt, tt)))), tt), refl)
  bit_operation-IsRight _ (IsBitOperation.and _ _ _ _ _ h0) =
      (((tt, (tt, (h0, (tt, tt)))), tt), refl)
  bit_operation-IsRight _ (IsBitOperation.not _ _ _ _) = (((tt, (tt, (tt, tt))), tt), refl)
  bit_operation-IsRight _ (IsBitOperation.lshift _ _ _ _ _) =
      (((tt, (tt, (tt, (tt, tt)))), tt), refl)
  bit_operation-IsRight _ (IsBitOperation.rshift _ _ _ _ _) =
      (((tt, (tt, (tt, (tt, tt)))), tt), refl)
  bit_operation-IsRight _ (IsBitOperation.add _ _ _ _ _ _ _) =
      (((tt, (tt, (tt, (tt, (tt, tt))))), tt), refl)
  bit_operation-IsRight _ (IsBitOperation.subtract _ _ _ _ _ _ _) =
      (((tt, (tt, (tt, (tt, (tt, tt))))), tt), refl)
  bit_operation-IsRight _ (IsBitOperation.set_int _ _ _ _ _) =
      (((tt, (tt, (tt, (tt, tt)))), tt), refl)
  bit_operation-IsRight _ (IsBitOperation.get _ _ _) = (((tt, (tt, tt)), tt), refl)
  bit_operation-IsRight _ (IsBitOperation.count _ _ _) = (((tt, (tt, tt)), tt), refl)
  bit_operation-IsRight _ (IsBitOperation.lscan _ _ _ _) = (((tt, (tt, (tt, tt))), tt), refl)
  bit_operation-IsRight _ (IsBitOperation.rscan _ _ _ _) = (((tt, (tt, (tt, tt))), tt), refl)
  bit_operation-IsRight _ (IsBitOperation.get_int _ _ _ _) =
      (((tt, (tt, signed-IsPackable _)), tt), refl)
