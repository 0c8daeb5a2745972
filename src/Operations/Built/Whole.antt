-- ===== src/Operations/Built/Whole.antt =====
-- operations/: all operations that the builders of the modules return.
use aerospike_client_rust.Base.{refl, ◌≡◌, ℕ, List, [], ◌∷◌}
use aerospike_client_rust.Buffer.Endian.{Endian}
use aerospike_client_rust.Value.Wire.{IsStorable}
use aerospike_client_rust.Operations
use aerospike_client_rust.Operations.Scalar
use aerospike_client_rust.Operations.Exp
use aerospike_client_rust.Operations.Exp.{ExpWriteFlags, ExpReadFlags}
use aerospike_client_rust.Operations.Whole.{Operation, OperationBin, OperationData}
use aerospike_client_rust.Expressions.{Expressions}
use aerospike_client_rust.Commands.Sizes.{Bin}
use aerospike_client_rust.Commands.Built.Operations.{IsCarried, AreCarried}
use aerospike_client_rust.Operations.Built.Shape.{IsRight, IsRightType, exp_type}
use aerospike_client_rust.Operations.Built.ListWrites.{IsListWrite, list_write-IsRight}
use aerospike_client_rust.Operations.Built.ListReads.{IsListQuery, list_query-IsRight}
use aerospike_client_rust.Operations.Built.MapWrites.{IsMapWrite, map_write-IsRight}
use aerospike_client_rust.Operations.Built.MapReads.{IsMapQuery, map_query-IsRight}
use aerospike_client_rust.Operations.Built.Bits.{IsBitOperation, bit_operation-IsRight}
use aerospike_client_rust.Operations.Built.Hll.{IsHllOperation, hll_operation-IsRight}

pub data IsScalar (F : Type 0) : Operation F → Type 0 where
  get : IsScalar F (Scalar.get)
  get_header : IsScalar F (Scalar.get_header)
  get_bin : (bin_name : List ℕ) → IsScalar F (Scalar.get_bin bin_name)
  put : (bin : Bin) → IsStorable bin.value → IsScalar F (Scalar.put bin)
  append : (bin : Bin) → IsStorable bin.value → IsScalar F (Scalar.append bin)
  prepend : (bin : Bin) → IsStorable bin.value → IsScalar F (Scalar.prepend bin)
  add : (bin : Bin) → IsStorable bin.value → IsScalar F (Scalar.add bin)
  touch : IsScalar F (Scalar.touch)
  delete : IsScalar F (Scalar.delete)

module _ ⦃exprs : Expressions⦄ where
  open exprs use {FilterExpression}

  pub data IsBuilt : Operation FilterExpression → Type 0 where
    scalar : (op : Operation FilterExpression) → IsScalar FilterExpression op → IsBuilt op
    list_write : (op : Operation FilterExpression) → IsListWrite FilterExpression op → IsBuilt op
    list_query : (op : Operation FilterExpression) → IsListQuery FilterExpression op → IsBuilt op
    map_write : (op : Operation FilterExpression) → IsMapWrite FilterExpression op → IsBuilt op
    map_query : (op : Operation FilterExpression) → IsMapQuery FilterExpression op → IsBuilt op
    bits : (op : Operation FilterExpression) → IsBitOperation FilterExpression op → IsBuilt op
    hll : (op : Operation FilterExpression) → IsHllOperation FilterExpression op → IsBuilt op
    write_exp :
        (bin : List ℕ) (exp : FilterExpression) (flags : ExpWriteFlags)
        → exprs.IsPackable exp
        → IsBuilt (Exp.write_exp bin exp flags)
    read_exp :
        (bin : List ℕ) (exp : FilterExpression) (flags : ExpReadFlags)
        → exprs.IsPackable exp
        → IsBuilt (Exp.read_exp bin exp flags)

  unfoldable pub AreBuilt : List (Operation FilterExpression) → Type 0
  AreBuilt [] = Unit {0}
  AreBuilt (op ∷ ops) = IsBuilt op × AreBuilt ops

-- What a builder on whole bins stands for: the number of its operation on the wire, the bins that it
-- names and the value that it carries.
unfoldable pub scalar_code : {F : Type 0} {op : Operation F} → IsScalar F op → ℕ
scalar_code IsScalar.get = 1
scalar_code IsScalar.get_header = 1
scalar_code (IsScalar.get_bin bin_name) = 1
scalar_code (IsScalar.put bin h) = 2
scalar_code (IsScalar.append bin h) = 9
scalar_code (IsScalar.prepend bin h) = 10
scalar_code (IsScalar.add bin h) = 5
scalar_code IsScalar.touch = 11
scalar_code IsScalar.delete = 14

unfoldable pub scalar_bin : {F : Type 0} {op : Operation F} → IsScalar F op → OperationBin
scalar_bin IsScalar.get = OperationBin.all
scalar_bin IsScalar.get_header = OperationBin.none
scalar_bin (IsScalar.get_bin bin_name) = OperationBin.name bin_name
scalar_bin (IsScalar.put bin h) = OperationBin.name bin.name
scalar_bin (IsScalar.append bin h) = OperationBin.name bin.name
scalar_bin (IsScalar.prepend bin h) = OperationBin.name bin.name
scalar_bin (IsScalar.add bin h) = OperationBin.name bin.name
scalar_bin IsScalar.touch = OperationBin.none
scalar_bin IsScalar.delete = OperationBin.none

unfoldable pub scalar_data : {F : Type 0} {op : Operation F} → IsScalar F op → OperationData F
scalar_data (IsScalar.put bin h) = OperationData.value bin.value
scalar_data (IsScalar.append bin h) = OperationData.value bin.value
scalar_data (IsScalar.prepend bin h) = OperationData.value bin.value
scalar_data (IsScalar.add bin h) = OperationData.value bin.value
scalar_data _ = OperationData.none

unfoldable pub IsRightScalar : {F : Type 0} (op : Operation F) → IsScalar F op → Type 0
IsRightScalar op h =
    (Operations.code op.op ≡ scalar_code h) × (op.bin ≡ scalar_bin h) × (op.op_data ≡ scalar_data h)

module _ ⦃endian : Endian⦄ ⦃exprs : Expressions⦄ where
  open exprs use {FilterExpression}

  -- An operation on whole bins is right if it is what its builder stands for, every other one if its
  -- type is the one for its code.
  unfoldable pub IsRightBuilt : (op : Operation FilterExpression) → IsBuilt op → Type 0
  IsRightBuilt op (IsBuilt.scalar _ h) = IsRight op × IsRightScalar op h
  IsRightBuilt op _ = IsRight op

  scalar-IsRight : (op : Operation FilterExpression) → IsScalar FilterExpression op → IsRight op
  unfolding Scalar.get Scalar.get_header Scalar.get_bin Scalar.put Scalar.append Scalar.prepend
      Scalar.add Scalar.touch Scalar.delete IsRight IsCarried IsRightType
  scalar-IsRight _ IsScalar.get = (tt, tt)
  scalar-IsRight _ IsScalar.get_header = (tt, tt)
  scalar-IsRight _ (IsScalar.get_bin bin_name) = (tt, tt)
  scalar-IsRight _ (IsScalar.put bin h) = (h, tt)
  scalar-IsRight _ (IsScalar.append bin h) = (h, tt)
  scalar-IsRight _ (IsScalar.prepend bin h) = (h, tt)
  scalar-IsRight _ (IsScalar.add bin h) = (h, tt)
  scalar-IsRight _ IsScalar.touch = (tt, tt)
  scalar-IsRight _ IsScalar.delete = (tt, tt)

  scalar-IsRightScalar :
      (op : Operation FilterExpression) (h : IsScalar FilterExpression op) → IsRightScalar op h
  unfolding Scalar.get Scalar.get_header Scalar.get_bin Scalar.put Scalar.append Scalar.prepend
      Scalar.add Scalar.touch Scalar.delete Operations.code scalar_code scalar_bin scalar_data
      IsRightScalar
  scalar-IsRightScalar _ IsScalar.get = (refl, refl, refl)
  scalar-IsRightScalar _ IsScalar.get_header = (refl, refl, refl)
  scalar-IsRightScalar _ (IsScalar.get_bin bin_name) = (refl, refl, refl)
  scalar-IsRightScalar _ (IsScalar.put bin h) = (refl, refl, refl)
  scalar-IsRightScalar _ (IsScalar.append bin h) = (refl, refl, refl)
  scalar-IsRightScalar _ (IsScalar.prepend bin h) = (refl, refl, refl)
  scalar-IsRightScalar _ (IsScalar.add bin h) = (refl, refl, refl)
  scalar-IsRightScalar _ IsScalar.touch = (refl, refl, refl)
  scalar-IsRightScalar _ IsScalar.delete = (refl, refl, refl)

  carried : (op : Operation FilterExpression) → IsBuilt op → IsRight op
  unfolding Exp.write_exp Exp.read_exp exp_type IsRight IsCarried IsRightType
  carried op (IsBuilt.scalar _ h) = scalar-IsRight op h
  carried op (IsBuilt.list_write _ h) = list_write-IsRight op h
  carried op (IsBuilt.list_query _ h) = list_query-IsRight op h
  carried op (IsBuilt.map_write _ h) = map_write-IsRight op h
  carried op (IsBuilt.map_query _ h) = map_query-IsRight op h
  carried op (IsBuilt.bits _ h) = bit_operation-IsRight op h
  carried op (IsBuilt.hll _ h) = hll_operation-IsRight op h
  carried _ (IsBuilt.write_exp bin exp flags h) = (h, refl)
  carried _ (IsBuilt.read_exp bin exp flags h) = (h, refl)

  -- Every operation that a builder of the modules returns for packable arguments can be carried by
  -- `set_operate`. Its type is the reading or the writing one of its family as its code, or its
  -- encoder, says; and that of a builder on whole bins has the number of the builder's operation on
  -- the wire, with the bins that it names and the value that it is given.
  pub built-IsRight : (op : Operation FilterExpression) (h : IsBuilt op) → IsRightBuilt op h
  unfolding IsRightBuilt
  built-IsRight op (IsBuilt.scalar _ h) =
      (carried op (IsBuilt.scalar _ h), scalar-IsRightScalar op h)
  built-IsRight op (IsBuilt.list_write _ h) = carried op (IsBuilt.list_write _ h)
  built-IsRight op (IsBuilt.list_query _ h) = carried op (IsBuilt.list_query _ h)
  built-IsRight op (IsBuilt.map_write _ h) = carried op (IsBuilt.map_write _ h)
  built-IsRight op (IsBuilt.map_query _ h) = carried op (IsBuilt.map_query _ h)
  built-IsRight op (IsBuilt.bits _ h) = carried op (IsBuilt.bits _ h)
  built-IsRight op (IsBuilt.hll _ h) = carried op (IsBuilt.hll _ h)
  built-IsRight _ (IsBuilt.write_exp bin exp flags h) =
      carried _ (IsBuilt.write_exp bin exp flags h)
  built-IsRight _ (IsBuilt.read_exp bin exp flags h) = carried _ (IsBuilt.read_exp bin exp flags h)

  pub built-AreCarried : (ops : List (Operation FilterExpression)) → AreBuilt ops → AreCarried ops
  unfolding AreBuilt AreCarried IsRight
  built-AreCarried [] h = tt
  built-AreCarried (op ∷ ops) h = ((carried op h.0).0, built-AreCarried ops h.1)
