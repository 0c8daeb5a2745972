-- ===== src/Commands/Requests.antt =====
-- commands/buffer.rs: the commands on one record, `set_write` to `set_read_for_key_only` and
-- `set_udf`. Each sizes the message, resizes the buffer once and then writes.
use aerospike_client_rust.Base.{
  ℕ, ◌+◌, ◌%◌, ◌^◌, false, List, [], Option, length, if◌then◌else◌, ltb, bit_or,
}
use aerospike_client_rust.Outcome.{◌>>=◌, ◌>>◌}
use aerospike_client_rust.Buffer.{M}
use aerospike_client_rust.Buffer.Endian.{Endian}
use aerospike_client_rust.Buffer.Sizing.{begin, size_buffer, end}
use aerospike_client_rust.Value.{Values}
use aerospike_client_rust.Key.{Key}
use aerospike_client_rust.Expressions.{Expressions}
use aerospike_client_rust.Operations.{OperationType}
use aerospike_client_rust.Policy.{ReadPolicy, WritePolicy, Bins}
use aerospike_client_rust.Commands.FieldType.{FieldType}
use aerospike_client_rust.Commands.Sizes.{
  Bin, estimate_key_size, estimate_filter_size, estimate_bins, estimate_bin_names,
  estimate_operation_size, estimate_operation_size_for_bin_name, estimate_udf_size,
}
use aerospike_client_rust.Commands.Fields.{
  write_key, write_filter, write_bins, write_bin_names, write_operation_for_operation_type,
  write_operation_for_bin_name, write_field_string, write_args,
}
use aerospike_client_rust.Commands.Header.{
  write_header, write_header_with_policy, info1_read, info1_get_all, info1_nobindata, info2_write,
  info2_delete,
}

-- `if filter_size > 0 { field_count += 1; }`
abbrev pub with_filter : ℕ → ℕ → ℕ
with_filter filter_size field_count = if ltb 0 filter_size then field_count + 1 else field_count

module _ ⦃endian : Endian⦄ ⦃exprs : Expressions⦄ where
  open exprs use {FilterExpression}

  unfoldable pub set_write :
      WritePolicy FilterExpression → OperationType → Key → List Bin → M (Unit {0})
  set_write policy op_type key bins = do
    begin
    field_count ← estimate_key_size key policy.send_key
    filter_size ← estimate_filter_size policy.filter_expression
    estimate_bins bins
    size_buffer
    write_header_with_policy policy 0 info2_write (with_filter filter_size field_count)
        (length bins % 2 ^ 16)
    write_key key policy.send_key
    write_filter policy.filter_expression filter_size
    write_bins bins op_type
    end

  unfoldable pub set_delete : WritePolicy FilterExpression → Key → M (Unit {0})
  set_delete policy key = do
    begin
    field_count ← estimate_key_size key false
    filter_size ← estimate_filter_size policy.filter_expression
    size_buffer
    write_header_with_policy policy 0 (bit_or info2_write info2_delete)
        (with_filter filter_size field_count) 0
    write_key key false
    write_filter policy.filter_expression filter_size
    end

  unfoldable pub set_touch : WritePolicy FilterExpression → Key → M (Unit {0})
  set_touch policy key = do
    begin
    field_count ← estimate_key_size key policy.send_key
    filter_size ← estimate_filter_size policy.filter_expression
    estimate_operation_size
    size_buffer
    write_header_with_policy policy 0 info2_write (with_filter filter_size field_count) 1
    write_key key policy.send_key
    write_filter policy.filter_expression filter_size
    write_operation_for_operation_type OperationType.touch
    end

  -- The policy's own filter, not that of its base, is sent.
  unfoldable pub set_exists : WritePolicy FilterExpression → Key → M (Unit {0})
  set_exists policy key = do
    begin
    field_count ← estimate_key_size key false
    filter_size ← estimate_filter_size policy.filter_expression
    size_buffer
    write_header policy.base_policy (bit_or info1_read info1_nobindata) 0
        (with_filter filter_size field_count) 0
    write_key key false
    write_filter policy.filter_expression filter_size
    end

  unfoldable pub set_read_header : ReadPolicy FilterExpression → Key → M (Unit {0})
  set_read_header policy key = do
    begin
    field_count ← estimate_key_size key false
    filter_size ← estimate_filter_size policy.filter_expression
    estimate_operation_size_for_bin_name []
    size_buffer
    write_header policy (bit_or info1_read info1_nobindata) 0 (with_filter filter_size field_count)
        1
    write_key key false
    write_filter policy.filter_expression filter_size
    write_operation_for_bin_name [] OperationType.read
    end

  unfoldable pub set_read_for_key_only : ReadPolicy FilterExpression → Key → M (Unit {0})
  set_read_for_key_only policy key = do
    begin
    field_count ← estimate_key_size key false
    filter_size ← estimate_filter_size policy.filter_expression
    size_buffer
    write_header policy (bit_or info1_read info1_get_all) 0 (with_filter filter_size field_count) 0
    write_key key false
    write_filter policy.filter_expression filter_size
    end

  unfoldable pub set_read_bins : ReadPolicy FilterExpression → Key → List (List ℕ) → M (Unit {0})
  set_read_bins policy key bin_names = do
    begin
    field_count ← estimate_key_size key false
    filter_size ← estimate_filter_size policy.filter_expression
    estimate_bin_names bin_names
    size_buffer
    write_header policy info1_read 0 (with_filter filter_size field_count)
        (length bin_names % 2 ^ 16)
    write_key key false
    write_filter policy.filter_expression filter_size
    write_bin_names bin_names OperationType.read
    end

  unfoldable pub set_read : ReadPolicy FilterExpression → Key → Bins → M (Unit {0})
  set_read policy key Bins.none = set_read_header policy key
  set_read policy key Bins.all = set_read_for_key_only policy key
  set_read policy key (Bins.names bin_names) = set_read_bins policy key bin_names

  unfoldable pub set_udf :
      WritePolicy FilterExpression → Key → List ℕ → List ℕ → Option Values → M (Unit {0})
  set_udf policy key package_name function_name args = do
    begin
    key_fields ← estimate_key_size key policy.send_key
    udf_fields ← estimate_udf_size package_name function_name args
    filter_size ← estimate_filter_size policy.filter_expression
    size_buffer
    write_header policy.base_policy 0 info2_write
        (with_filter filter_size (key_fields + udf_fields % 2 ^ 16)) 0
    write_key key policy.send_key
    write_filter policy.filter_expression filter_size
    write_field_string package_name FieldType.udf_package_name
    write_field_string function_name FieldType.udf_function
    write_args args FieldType.udf_arg_list
    end
