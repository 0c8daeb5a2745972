-- ===== src/Expressions/ExpOp.antt =====
-- expressions/mod.rs: the operation codes of filter expressions.
use aerospike_client_rust.Base.{ℕ}

pub data ExpOp : Type 0 where
  unknown eq ne gt ge lt le regex geo and or not xor add sub mul div pow log num_mod : ExpOp
  abs floor ceil to_int to_float int_and int_or int_xor int_not int_lshift int_rshift : ExpOp
  int_arshift int_count int_lscan int_rscan min max digest_modulo device_size : ExpOp
  last_update since_update void_time ttl set_name key_exists is_tombstone key bin : ExpOp
  bin_type cond var exp_let quoted call : ExpOp

-- `cmd as i64`
unfoldable pub code : ExpOp → ℕ
code unknown = 0
code eq = 1
code ne = 2
code gt = 3
code ge = 4
code lt = 5
code le = 6
code regex = 7
code geo = 8
code and = 16
code or = 17
code not = 18
code xor = 19
code add = 20
code sub = 21
code mul = 22
code div = 23
code pow = 24
code log = 25
code num_mod = 26
code abs = 27
code floor = 28
code ceil = 29
code to_int = 30
code to_float = 31
code int_and = 32
code int_or = 33
code int_xor = 34
code int_not = 35
code int_lshift = 36
code int_rshift = 37
code int_arshift = 38
code int_count = 39
code int_lscan = 40
code int_rscan = 41
code min = 50
code max = 51
code digest_modulo = 64
code device_size = 65
code last_update = 66
code since_update = 67
code void_time = 68
code ttl = 69
code set_name = 70
code key_exists = 71
code is_tombstone = 72
code key = 80
code bin = 81
code bin_type = 82
code cond = 123
code var = 124
code exp_let = 125
code quoted = 126
code call = 127
