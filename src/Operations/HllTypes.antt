-- ===== src/Operations/HllTypes.antt =====
-- operations/hll.rs: the codes, the flags and the policy of operations on HLL values.
use aerospike_client_rust.Base.{ℕ}

pub data HllOpType : Type 0 where
  init add set_union set_count fold count union union_count intersect_count : HllOpType
  similarity describe : HllOpType

unfoldable pub hll_op_code : HllOpType → ℕ
hll_op_code init = 0
hll_op_code add = 1
hll_op_code set_union = 2
hll_op_code set_count = 3
hll_op_code fold = 4
hll_op_code count = 50
hll_op_code union = 51
hll_op_code union_count = 52
hll_op_code intersect_count = 53
hll_op_code similarity = 54
hll_op_code describe = 55

pub data HllWriteFlags : Type 0 where
  default create_only update_only no_fail allow_fold : HllWriteFlags

unfoldable pub hll_write_code : HllWriteFlags → ℕ
hll_write_code default = 0
hll_write_code create_only = 1
hll_write_code update_only = 2
hll_write_code no_fail = 4
hll_write_code allow_fold = 8

pub record HllPolicy : Type 0 where
  pub flags : HllWriteFlags
