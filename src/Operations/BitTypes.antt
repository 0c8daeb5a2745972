-- ===== src/Operations/BitTypes.antt =====
-- operations/bitwise.rs: the codes, the flags and the policy of operations on bits.
use aerospike_client_rust.Base.{ℕ}

pub data CdtBitwiseOpType : Type 0 where
  resize insert remove set or xor and not l_shift r_shift add subtract set_int get :
      CdtBitwiseOpType
  count l_scan r_scan get_int : CdtBitwiseOpType

unfoldable pub bit_op_code : CdtBitwiseOpType → ℕ
bit_op_code resize = 0
bit_op_code insert = 1
bit_op_code remove = 2
bit_op_code set = 3
bit_op_code or = 4
bit_op_code xor = 5
bit_op_code and = 6
bit_op_code not = 7
bit_op_code l_shift = 8
bit_op_code r_shift = 9
bit_op_code add = 10
bit_op_code subtract = 11
bit_op_code set_int = 12
bit_op_code get = 50
bit_op_code count = 51
bit_op_code l_scan = 52
bit_op_code r_scan = 53
bit_op_code get_int = 54

pub data BitwiseResizeFlags : Type 0 where
  default from_front grow_only shrink_only : BitwiseResizeFlags

unfoldable pub resize_code : BitwiseResizeFlags → ℕ
resize_code default = 0
resize_code from_front = 1
resize_code grow_only = 2
resize_code shrink_only = 4

pub data BitwiseWriteFlags : Type 0 where
  default create_only update_only no_fail partial : BitwiseWriteFlags

unfoldable pub bit_write_code : BitwiseWriteFlags → ℕ
bit_write_code default = 0
bit_write_code create_only = 1
bit_write_code update_only = 2
bit_write_code no_fail = 4
bit_write_code partial = 8

pub data BitwiseOverflowActions : Type 0 where
  fail saturate wrap : BitwiseOverflowActions

unfoldable pub overflow_code : BitwiseOverflowActions → ℕ
overflow_code fail = 0
overflow_code saturate = 2
overflow_code wrap = 4

pub record BitPolicy : Type 0 where
  pub flags : ℕ
