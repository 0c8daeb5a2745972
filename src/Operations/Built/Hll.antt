-- ===== src/Operations/Built/Hll.antt =====
-- The operations that operations/hll.rs builds, each with what it needs of its arguments.
use aerospike_client_rust.Base.{refl, ℕ, ℤ, List}
use aerospike_client_rust.Buffer.Endian.{Endian}
use aerospike_client_rust.Value.{Values}
use aerospike_client_rust.Msgpack.Format.{ArePackable}
use aerospike_client_rust.Operations.HllTypes.{HllPolicy, hll_op_code}
use aerospike_client_rust.Operations.Hll
use aerospike_client_rust.Operations.Whole.{Operation}
use aerospike_client_rust.Expressions.{Expressions}
use aerospike_client_rust.Commands.Built.Operations.{IsCarried}
use aerospike_client_rust.Operations.Built.Shape.{IsRight, IsRightType}

pub data IsHllOperation (F : Type 0) : Operation F → Type 0 where
  init :
      (policy : HllPolicy) (bin : List ℕ) (index_bit_count : ℤ)
      → IsHllOperation F (Hll.init policy bin index_bit_count)
  init_with_min_hash :
      (policy : HllPolicy) (bin : List ℕ) (index_bit_count min_hash_bit_count : ℤ)
      → IsHllOperation F (Hll.init_with_min_hash policy bin index_bit_count min_hash_bit_count)
  add :
      (policy : HllPolicy) (bin : List ℕ) (list : Values)
      → ArePackable list
      → IsHllOperation F (Hll.add policy bin list)
  add_with_index :
      (policy : HllPolicy) (bin : List ℕ) (list : Values) (index_bit_count : ℤ)
      → ArePackable list
      → IsHllOperation F (Hll.add_with_index policy bin list index_bit_count)
  add_with_index_and_min_hash :
      (policy : HllPolicy) (bin : List ℕ) (list : Values) (index_bit_count min_hash_bit_count : ℤ)
      → ArePackable list
      → IsHllOperation F
          (Hll.add_with_index_and_min_hash policy bin list index_bit_count min_hash_bit_count)
  set_union :
      (policy : HllPolicy) (bin : List ℕ) (list : Values)
      → ArePackable list
      → IsHllOperation F (Hll.set_union policy bin list)
  refresh_count : (bin : List ℕ) → IsHllOperation F (Hll.refresh_count bin)
  fold : (bin : List ℕ) (index_bit_count : ℤ) → IsHllOperation F (Hll.fold bin index_bit_count)
  get_count : (bin : List ℕ) → IsHllOperation F (Hll.get_count bin)
  get_union :
      (bin : List ℕ) (list : Values) → ArePackable list → IsHllOperation F (Hll.get_union bin list)
  get_union_count :
      (bin : List ℕ) (list : Values)
      → ArePackable list
      → IsHllOperation F (Hll.get_union_count bin list)
  get_intersect_count :
      (bin : List ℕ) (list : Values)
      → ArePackable list
      → IsHllOperation F (Hll.get_intersect_count bin list)
  get_similarity :
      (bin : List ℕ) (list : Values)
      → ArePackable list
      → IsHllOperation F (Hll.get_similarity bin list)
  describe : (bin : List ℕ) → IsHllOperation F (Hll.describe bin)

module _ ⦃endian : Endian⦄ ⦃exprs : Expressions⦄ where
  open exprs use {FilterExpression}

  pub hll_operation-IsRight :
      (op : Operation FilterExpression) → IsHllOperation FilterExpression op → IsRight op
  unfolding Hll.init Hll.init_with_min_hash Hll.add Hll.add_with_index
      Hll.add_with_index_and_min_hash Hll.set_union Hll.refresh_count Hll.fold Hll.get_count
      Hll.get_union Hll.get_union_count Hll.get_intersect_count Hll.get_similarity Hll.describe
      IsRight IsCarried IsRightType hll_op_code
  hll_operation-IsRight _ (IsHllOperation.init _ _ _) = (((tt, (tt, (tt, tt))), tt), refl)
  hll_operation-IsRight _ (IsHllOperation.init_with_min_hash _ _ _ _) =
      (((tt, (tt, (tt, tt))), tt), refl)
  hll_operation-IsRight _ (IsHllOperation.add _ _ _ h0) = (((h0, (tt, (tt, (tt, tt)))), tt), refl)
  hll_operation-IsRight _ (IsHllOperation.add_with_index _ _ _ _ h0) =
      (((h0, (tt, (tt, (tt, tt)))), tt), refl)
  hll_operation-IsRight _ (IsHllOperation.add_with_index_and_min_hash _ _ _ _ _ h0) =
      (((h0, (tt, (tt, (tt, tt)))), tt), refl)
  hll_operation-IsRight _ (IsHllOperation.set_union _ _ _ h0) = (((h0, (tt, tt)), tt), refl)
  hll_operation-IsRight _ (IsHllOperation.refresh_count _) = ((tt, tt), refl)
  hll_operation-IsRight _ (IsHllOperation.fold _ _) = (((tt, tt), tt), refl)
  hll_operation-IsRight _ (IsHllOperation.get_count _) = ((tt, tt), refl)
  hll_operation-IsRight _ (IsHllOperation.get_union _ _ h0) = (((h0, tt), tt), refl)
  hll_operation-IsRight _ (IsHllOperation.get_union_count _ _ h0) = (((h0, tt), tt), refl)
  hll_operation-IsRight _ (IsHllOperation.get_intersect_count _ _ h0) = (((h0, tt), tt), refl)
  hll_operation-IsRight _ (IsHllOperation.get_similarity _ _ h0) = (((h0, tt), tt), refl)
  hll_operation-IsRight _ (IsHllOperation.describe _) = ((tt, tt), refl)
