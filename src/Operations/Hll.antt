-- ===== src/Operations/Hll.antt =====
-- operations/hll.rs: the operations on HLL values.
use aerospike_client_rust.Base.{ℕ, ℤ, negsuc, List, [], ◌∷◌}
use aerospike_client_rust.Value.{Values}
use aerospike_client_rust.Operations.{CdtArgument, OperationType}
use aerospike_client_rust.Operations.Whole.{Operation}
use aerospike_client_rust.Operations.Contexts.{default_ctx}
use aerospike_client_rust.Operations.CdtBuilder.{hll_operation}
use aerospike_client_rust.Operations.HllTypes.{HllOpType, HllPolicy, hll_op_code, hll_write_code}

unfoldable pub init_with_min_hash : {F : Type 0} → HllPolicy → List ℕ → ℤ → ℤ → Operation F
init_with_min_hash policy bin index_bit_count min_hash_bit_count =
    hll_operation OperationType.hll_write default_ctx bin (hll_op_code HllOpType.init) (
      CdtArgument.int index_bit_count
      ∷ CdtArgument.int min_hash_bit_count
      ∷ CdtArgument.byte (hll_write_code policy.flags)
      ∷ [])

unfoldable pub add_with_index_and_min_hash :
    {F : Type 0} → HllPolicy → List ℕ → Values → ℤ → ℤ → Operation F
add_with_index_and_min_hash policy bin list index_bit_count min_hash_bit_count =
    hll_operation OperationType.hll_write default_ctx bin (hll_op_code HllOpType.add) (
      CdtArgument.list list
      ∷ CdtArgument.int index_bit_count
      ∷ CdtArgument.int min_hash_bit_count
      ∷ CdtArgument.byte (hll_write_code policy.flags)
      ∷ [])

unfoldable pub set_union : {F : Type 0} → HllPolicy → List ℕ → Values → Operation F
set_union policy bin list =
    hll_operation OperationType.hll_write default_ctx bin (hll_op_code HllOpType.set_union)
      (CdtArgument.list list ∷ CdtArgument.byte (hll_write_code policy.flags) ∷ [])

unfoldable pub refresh_count : {F : Type 0} → List ℕ → Operation F
refresh_count bin =
    hll_operation OperationType.hll_write default_ctx bin (hll_op_code HllOpType.set_count) []

unfoldable pub fold : {F : Type 0} → List ℕ → ℤ → Operation F
fold bin index_bit_count =
    hll_operation OperationType.hll_write default_ctx bin (hll_op_code HllOpType.fold)
      (CdtArgument.int index_bit_count ∷ [])

unfoldable pub get_count : {F : Type 0} → List ℕ → Operation F
get_count bin =
    hll_operation OperationType.hll_read default_ctx bin (hll_op_code HllOpType.count) []

unfoldable pub get_union : {F : Type 0} → List ℕ → Values → Operation F
get_union bin list =
    hll_operation OperationType.hll_read default_ctx bin (hll_op_code HllOpType.union)
      (CdtArgument.list list ∷ [])

unfoldable pub get_union_count : {F : Type 0} → List ℕ → Values → Operation F
get_union_count bin list =
    hll_operation OperationType.hll_read default_ctx bin (hll_op_code HllOpType.union_count)
      (CdtArgument.list list ∷ [])

unfoldable pub get_intersect_count : {F : Type 0} → List ℕ → Values → Operation F
get_intersect_count bin list =
    hll_operation OperationType.hll_read default_ctx bin (hll_op_code HllOpType.intersect_count)
      (CdtArgument.list list ∷ [])

unfoldable pub get_similarity : {F : Type 0} → List ℕ → Values → Operation F
get_similarity bin list =
    hll_operation OperationType.hll_read default_ctx bin (hll_op_code HllOpType.similarity)
      (CdtArgument.list list ∷ [])

unfoldable pub describe : {F : Type 0} → List ℕ → Operation F
describe bin =
    hll_operation OperationType.hll_read default_ctx bin (hll_op_code HllOpType.describe) []

unfoldable pub init : {F : Type 0} → HllPolicy → List ℕ → ℤ → Operation F
init policy bin index_bit_count = init_with_min_hash policy bin index_bit_count (negsuc 0)

unfoldable pub add : {F : Type 0} → HllPolicy → List ℕ → Values → Operation F
add policy bin list = add_with_index_and_min_hash policy bin list (negsuc 0) (negsuc 0)

unfoldable pub add_with_index : {F : Type 0} → HllPolicy → List ℕ → Values → ℤ → Operation F
add_with_index policy bin list index_bit_count =
    add_with_index_and_min_hash policy bin list index_bit_count (negsuc 0)
