-- ===== src/Expressions/Made/Hll.antt =====
-- expressions/hll.rs: what the builders of expressions return.
use aerospike_client_rust.Base.{refl}
use aerospike_client_rust.Operations.HllTypes.{HllPolicy}
use aerospike_client_rust.Expressions.Filter.{FilterExpression, argument_list, new}
use aerospike_client_rust.Expressions.Values
use aerospike_client_rust.Expressions.Hll
use aerospike_client_rust.Expressions.CallOps.{hll_exp_code}
use aerospike_client_rust.Expressions.Calls.{int_argument, add_hll_read, add_hll_write}
use aerospike_client_rust.Expressions.WellFormed.{
  IsCommand, IsGiven, AreArguments, IsBin, IsExpression, IsPackableValue, HasNoContext,
  HasOneContext, EachIsArgument,
}
use aerospike_client_rust.Msgpack.Format.{IsPackable}
use aerospike_client_rust.Expressions.Made.Shape.{
  IsRightHll, hll_reads, first_code, IsRightCall, flags_for,
}
use aerospike_client_rust.Expressions.Calls.{modify, call}

pub data IsHllCall : FilterExpression → Type 0 where
  init :
      (policy : HllPolicy) (index_bit_count bin : FilterExpression)
      → IsExpression index_bit_count
      → IsExpression bin
      → IsHllCall (Hll.init policy index_bit_count bin)
  init_with_min_hash :
      (policy : HllPolicy) (index_bit_count min_hash_count bin : FilterExpression)
      → IsExpression index_bit_count
      → IsExpression min_hash_count
      → IsExpression bin
      → IsHllCall (Hll.init_with_min_hash policy index_bit_count min_hash_count bin)
  add :
      (policy : HllPolicy) (list bin : FilterExpression)
      → IsExpression list
      → IsExpression bin
      → IsHllCall (Hll.add policy list bin)
  add_with_index :
      (policy : HllPolicy) (list index_bit_count bin : FilterExpression)
      → IsExpression list
      → IsExpression index_bit_count
      → IsExpression bin
      → IsHllCall (Hll.add_with_index policy list index_bit_count bin)
  add_with_index_and_min_hash :
      (policy : HllPolicy) (list index_bit_count min_hash_count bin : FilterExpression)
      → IsExpression list
      → IsExpression index_bit_count
      → IsExpression min_hash_count
      → IsExpression bin
      → IsHllCall (Hll.add_with_index_and_min_hash policy list index_bit_count min_hash_count bin)
  get_count : (bin : FilterExpression) → IsExpression bin → IsHllCall (Hll.get_count bin)
  get_union :
      (list bin : FilterExpression)
      → IsExpression list
      → IsExpression bin
      → IsHllCall (Hll.get_union list bin)
  get_union_count :
      (list bin : FilterExpression)
      → IsExpression list
      → IsExpression bin
      → IsHllCall (Hll.get_union_count list bin)
  get_intersect_count :
      (list bin : FilterExpression)
      → IsExpression list
      → IsExpression bin
      → IsHllCall (Hll.get_intersect_count list bin)
  get_similarity :
      (list bin : FilterExpression)
      → IsExpression list
      → IsExpression bin
      → IsHllCall (Hll.get_similarity list bin)
  describe : (bin : FilterExpression) → IsExpression bin → IsHllCall (Hll.describe bin)
  may_contain :
      (list bin : FilterExpression)
      → IsExpression list
      → IsExpression bin
      → IsHllCall (Hll.may_contain list bin)

pub hll_call-IsRight : (e : FilterExpression) → IsHllCall e → IsRightHll e
unfolding Hll.init Hll.init_with_min_hash Hll.add Hll.add_with_index Hll.add_with_index_and_min_hash
    Hll.get_count Hll.get_union Hll.get_union_count Hll.get_intersect_count Hll.get_similarity
    Hll.describe Hll.may_contain IsRightCall flags_for modify call IsCommand IsGiven AreArguments
    IsBin argument_list int_argument add_hll_read add_hll_write first_code HasNoContext
    HasOneContext EachIsArgument IsExpression IsPackable IsPackableValue Values.int_val Values.nil
    new hll_reads hll_exp_code
hll_call-IsRight _ (IsHllCall.init _ _ _ h0 h1) =
    ((tt, tt, (tt, (tt, (h0, (tt, (tt, tt))))), h1), refl)
hll_call-IsRight _ (IsHllCall.init_with_min_hash _ _ _ _ h0 h1 h2) =
    ((tt, tt, (tt, (tt, (h0, (h1, (tt, tt))))), h2), refl)
hll_call-IsRight _ (IsHllCall.add _ _ _ h0 h1) =
    ((tt, tt, (tt, (tt, (h0, (tt, (tt, (tt, tt)))))), h1), refl)
hll_call-IsRight _ (IsHllCall.add_with_index _ _ _ _ h0 h1 h2) =
    ((tt, tt, (tt, (tt, (h0, (h1, (tt, (tt, tt)))))), h2), refl)
hll_call-IsRight _ (IsHllCall.add_with_index_and_min_hash _ _ _ _ _ h0 h1 h2 h3) =
    ((tt, tt, (tt, (tt, (h0, (h1, (h2, (tt, tt)))))), h3), refl)
hll_call-IsRight _ (IsHllCall.get_count _ h0) = ((tt, tt, (tt, (tt, tt)), h0), refl)
hll_call-IsRight _ (IsHllCall.get_union _ _ h0 h1) = ((tt, tt, (tt, (tt, (h0, tt))), h1), refl)
hll_call-IsRight _ (IsHllCall.get_union_count _ _ h0 h1) =
    ((tt, tt, (tt, (tt, (h0, tt))), h1), refl)
hll_call-IsRight _ (IsHllCall.get_intersect_count _ _ h0 h1) =
    ((tt, tt, (tt, (tt, (h0, tt))), h1), refl)
hll_call-IsRight _ (IsHllCall.get_similarity _ _ h0 h1) = ((tt, tt, (tt, (tt, (h0, tt))), h1), refl)
hll_call-IsRight _ (IsHllCall.describe _ h0) = ((tt, tt, (tt, (tt, tt)), h0), refl)
hll_call-IsRight _ (IsHllCall.may_contain _ _ h0 h1) = ((tt, tt, (tt, (tt, (h0, tt))), h1), refl)
