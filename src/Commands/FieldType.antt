-- ===== src/Commands/FieldType.antt =====
-- commands/field_type.rs: the codes of the fields of a message.
use aerospike_client_rust.Base.{ℕ}

pub data FieldType : Type 0 where
  namespace table key digest_ripe tran_id scan_timeout pid_array index_name index_range : FieldType
  index_type udf_package_name udf_function udf_arg_list udf_op query_bin_list : FieldType
  batch_index batch_index_with_set filter_exp : FieldType

-- `ftype as u8`
unfoldable pub code : FieldType → ℕ
code namespace = 0
code table = 1
code key = 2
code digest_ripe = 4
code tran_id = 7
code scan_timeout = 9
code pid_array = 11
code index_name = 21
code index_range = 22
code index_type = 26
code udf_package_name = 30
code udf_function = 31
code udf_arg_list = 32
code udf_op = 33
code query_bin_list = 40
code batch_index = 41
code batch_index_with_set = 42
code filter_exp = 43
