-- ===== src/Expressions/Made/Bits.antt =====
-- expressions/bitwise.rs: what the builders of expressions return.
use aerospike_client_rust.Base.{refl, Bool}
use aerospike_client_rust.Operations.BitTypes.{
  BitPolicy, BitwiseOverflowActions, BitwiseResizeFlags,
}
use aerospike_client_rust.Expressions.Filter.{FilterExpression, argument_list, new}
use aerospike_client_rust.Expressions.Values
use aerospike_client_rust.Expressions.Bitwise
use aerospike_client_rust.Expressions.CallOps.{bit_exp_code}
use aerospike_client_rust.Expressions.Calls.{int_argument, add_bit_read, add_bit_write}
use aerospike_client_rust.Expressions.WellFormed.{
  IsCommand, IsGiven, AreArguments, IsBin, IsExpression, IsPackableValue, HasNoContext,
  HasOneContext, EachIsArgument,
}
use aerospike_client_rust.Msgpack.Format.{IsPackable}
use aerospike_client_rust.Expressions.Made.Shape.{
  IsRightBit, bit_reads, first_code, signed-EachIsArgument, signed-HasOneContext, IsRightCall,
  flags_for,
}
use aerospike_client_rust.Expressions.Calls.{modify, call}

pub data IsBitCall : FilterExpression → Type 0 where
  resize :
      (policy : BitPolicy) (byte_size : FilterExpression) (resize_flags : BitwiseResizeFlags)
      (bin : FilterExpression)
      → IsExpression byte_size
      → IsExpression bin
      → IsBitCall (Bitwise.resize policy byte_size resize_flags bin)
  insert :
      (policy : BitPolicy) (byte_offset value bin : FilterExpression)
      → IsExpression byte_offset
      → IsExpression value
      → IsExpression bin
      → IsBitCall (Bitwise.insert policy byte_offset value bin)
  remove :
      (policy : BitPolicy) (byte_offset byte_size bin : FilterExpression)
      → IsExpression byte_offset
      → IsExpression byte_size
      → IsExpression bin
      → IsBitCall (Bitwise.remove policy byte_offset byte_size bin)
  set :
      (policy : BitPolicy) (bit_offset bit_size value bin : FilterExpression)
      → IsExpression bit_offset
      → IsExpression bit_size
      → IsExpression value
      → IsExpression bin
      → IsBitCall (Bitwise.set policy bit_offset bit_size value bin)
  or :
      (policy : BitPolicy) (bit_offset bit_size value bin : FilterExpression)
      → IsExpression bit_offset
      → IsExpression bit_size
      → IsExpression value
      → IsExpression bin
      → IsBitCall (Bitwise.or policy bit_offset bit_size value bin)
  xor :
      (policy : BitPolicy) (bit_offset bit_size value bin : FilterExpression)
      → IsExpression bit_offset
      → IsExpression bit_size
      → IsExpression value
      → IsExpression bin
      → IsBitCall (Bitwise.xor policy bit_offset bit_size value bin)
  and :
      (policy : BitPolicy) (bit_offset bit_size value bin : FilterExpression)
      → IsExpression bit_offset
      → IsExpression bit_size
      → IsExpression value
      → IsExpression bin
      → IsBitCall (Bitwise.and policy bit_offset bit_size value bin)
  not :
      (policy : BitPolicy) (bit_offset bit_size bin : FilterExpression)
      → IsExpression bit_offset
      → IsExpression bit_size
      → IsExpression bin
      → IsBitCall (Bitwise.not policy bit_offset bit_size bin)
  lshift :
      (policy : BitPolicy) (bit_offset bit_size shift bin : FilterExpression)
      → IsExpression bit_offset
      → IsExpression bit_size
      → IsExpression shift
      → IsExpression bin
      → IsBitCall (Bitwise.lshift policy bit_offset bit_size shift bin)
  rshift :
      (policy : BitPolicy) (bit_offset bit_size shift bin : FilterExpression)
      → IsExpression bit_offset
      → IsExpression bit_size
      → IsExpression shift
      → IsExpression bin
      → IsBitCall (Bitwise.rshift policy bit_offset bit_size shift bin)
  add :
      (policy : BitPolicy) (bit_offset bit_size value : FilterExpression) (signed : Bool)
      (action : BitwiseOverflowActions) (bin : FilterExpression)
      → IsExpression bit_offset
      → IsExpression bit_size
      → IsExpression value
      → IsExpression bin
      → IsBitCall (Bitwise.add policy bit_offset bit_size value signed action bin)
  subtract :
      (policy : BitPolicy) (bit_offset bit_size value : FilterExpression) (signed : Bool)
      (action : BitwiseOverflowActions) (bin : FilterExpression)
      → IsExpression bit_offset
      → IsExpression bit_size
      → IsExpression value
      → IsExpression bin
      → IsBitCall (Bitwise.subtract policy bit_offset bit_size value signed action bin)
  set_int :
      (policy : BitPolicy) (bit_offset bit_size value bin : FilterExpression)
      → IsExpression bit_offset
      → IsExpression bit_size
      → IsExpression value
      → IsExpression bin
      → IsBitCall (Bitwise.set_int policy bit_offset bit_size value bin)
  get :
      (bit_offset bit_size bin : FilterExpression)
      → IsExpression bit_offset
      → IsExpression bit_size
      → IsExpression bin
      → IsBitCall (Bitwise.get bit_offset bit_size bin)
  count :
      (bit_offset bit_size bin : FilterExpression)
      → IsExpression bit_offset
      → IsExpression bit_size
      → IsExpression bin
      → IsBitCall (Bitwise.count bit_offset bit_size bin)
  lscan :
      (bit_offset bit_size value bin : FilterExpression)
      → IsExpression bit_offset
      → IsExpression bit_size
      → IsExpression value
      → IsExpression bin
      → IsBitCall (Bitwise.lscan bit_offset bit_size value bin)
  rscan :
      (bit_offset bit_size value bin : FilterExpression)
      → IsExpression bit_offset
      → IsExpression bit_size
      → IsExpression value
      → IsExpression bin
      → IsBitCall (Bitwise.rscan bit_offset bit_size value bin)
  get_int :
      (bit_offset bit_size : FilterExpression) (signed : Bool) (bin : FilterExpression)
      → IsExpression bit_offset
      → IsExpression bit_size
      → IsExpression bin
      → IsBitCall (Bitwise.get_int bit_offset bit_size signed bin)

pub bit_call-IsRight : (e : FilterExpression) → IsBitCall e → IsRightBit e
unfolding Bitwise.resize Bitwise.insert Bitwise.remove Bitwise.set Bitwise.or Bitwise.xor
    Bitwise.and Bitwise.not Bitwise.lshift Bitwise.rshift Bitwise.add Bitwise.subtract
    Bitwise.set_int Bitwise.get Bitwise.count Bitwise.lscan Bitwise.rscan Bitwise.get_int
    IsRightCall flags_for modify call IsCommand IsGiven AreArguments IsBin argument_list
    int_argument add_bit_read add_bit_write first_code HasNoContext HasOneContext EachIsArgument
    IsExpression IsPackable IsPackableValue Values.int_val Values.nil new bit_reads bit_exp_code
bit_call-IsRight _ (IsBitCall.resize _ _ _ _ h0 h1) =
    ((tt, tt, (tt, (tt, (h0, (tt, (tt, tt))))), h1), refl)
bit_call-IsRight _ (IsBitCall.insert _ _ _ _ h0 h1 h2) =
    ((tt, tt, (tt, (tt, (h0, (h1, (tt, tt))))), h2), refl)
bit_call-IsRight _ (IsBitCall.remove _ _ _ _ h0 h1 h2) =
    ((tt, tt, (tt, (tt, (h0, (h1, (tt, tt))))), h2), refl)
bit_call-IsRight _ (IsBitCall.set _ _ _ _ _ h0 h1 h2 h3) =
    ((tt, tt, (tt, (tt, (h0, (h1, (h2, (tt, tt)))))), h3), refl)
bit_call-IsRight _ (IsBitCall.or _ _ _ _ _ h0 h1 h2 h3) =
    ((tt, tt, (tt, (tt, (h0, (h1, (h2, (tt, tt)))))), h3), refl)
bit_call-IsRight _ (IsBitCall.xor _ _ _ _ _ h0 h1 h2 h3) =
    ((tt, tt, (tt, (tt, (h0, (h1, (h2, (tt, tt)))))), h3), refl)
bit_call-IsRight _ (IsBitCall.and _ _ _ _ _ h0 h1 h2 h3) =
    ((tt, tt, (tt, (tt, (h0, (h1, (h2, (tt, tt)))))), h3), refl)
bit_call-IsRight _ (IsBitCall.not _ _ _ _ h0 h1 h2) =
    ((tt, tt, (tt, (tt, (h0, (h1, (tt, tt))))), h2), refl)
bit_call-IsRight _ (IsBitCall.lshift _ _ _ _ _ h0 h1 h2 h3) =
    ((tt, tt, (tt, (tt, (h0, (h1, (h2, (tt, tt)))))), h3), refl)
bit_call-IsRight _ (IsBitCall.rshift _ _ _ _ _ h0 h1 h2 h3) =
    ((tt, tt, (tt, (tt, (h0, (h1, (h2, (tt, tt)))))), h3), refl)
bit_call-IsRight _ (IsBitCall.add _ _ _ _ _ _ _ h0 h1 h2 h3) =
    ((tt, tt, (tt, (tt, (h0, (h1, (h2, (tt, (tt, tt))))))), h3), refl)
bit_call-IsRight _ (IsBitCall.subtract _ _ _ _ _ _ _ h0 h1 h2 h3) =
    ((tt, tt, (tt, (tt, (h0, (h1, (h2, (tt, (tt, tt))))))), h3), refl)
bit_call-IsRight _ (IsBitCall.set_int _ _ _ _ _ h0 h1 h2 h3) =
    ((tt, tt, (tt, (tt, (h0, (h1, (h2, (tt, tt)))))), h3), refl)
bit_call-IsRight _ (IsBitCall.get _ _ _ h0 h1 h2) = ((tt, tt, (tt, (tt, (h0, (h1, tt)))), h2), refl)
bit_call-IsRight _ (IsBitCall.count _ _ _ h0 h1 h2) =
    ((tt, tt, (tt, (tt, (h0, (h1, tt)))), h2), refl)
bit_call-IsRight _ (IsBitCall.lscan _ _ _ _ h0 h1 h2 h3) =
    ((tt, tt, (tt, (tt, (h0, (h1, (h2, tt))))), h3), refl)
bit_call-IsRight _ (IsBitCall.rscan _ _ _ _ h0 h1 h2 h3) =
    ((tt, tt, (tt, (tt, (h0, (h1, (h2, tt))))), h3), refl)
bit_call-IsRight _ (IsBitCall.get_int _ _ _ _ h0 h1 h2) =
    ((tt, tt, (signed-HasOneContext _, (tt, (h0, (h1, signed-EachIsArgument _)))), h2), refl)
