-- ===== src/Expressions/CallOps.antt =====
-- expressions/bitwise.rs and hll.rs: the codes of the calls.
use aerospike_client_rust.Base.{ℕ}

pub data BitExpOp : Type 0 where
  resize insert remove set or xor and not l_shift r_shift add subtract set_int get : BitExpOp
  count l_scan r_scan get_int : BitExpOp

unfoldable pub bit_exp_code : BitExpOp → ℕ
bit_exp_code resize = 0
bit_exp_code insert = 1
bit_exp_code remove = 2
bit_exp_code set = 3
bit_exp_code or = 4
bit_exp_code xor = 5
bit_exp_code and = 6
bit_exp_code not = 7
bit_exp_code l_shift = 8
bit_exp_code r_shift = 9
bit_exp_code add = 10
bit_exp_code subtract = 11
bit_exp_code set_int = 12
bit_exp_code get = 50
bit_exp_code count = 51
bit_exp_code l_scan = 52
bit_exp_code r_scan = 53
bit_exp_code get_int = 54

pub data HllExpOp : Type 0 where
  init add count union union_count intersect_count similarity describe may_contain : HllExpOp

unfoldable pub hll_exp_code : HllExpOp → ℕ
hll_exp_code init = 0
hll_exp_code add = 1
hll_exp_code count = 50
hll_exp_code union = 51
hll_exp_code union_count = 52
hll_exp_code intersect_count = 53
hll_exp_code similarity = 54
hll_exp_code describe = 55
hll_exp_code may_contain = 56
