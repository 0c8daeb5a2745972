-- ===== src/Commands/Operate.antt =====
-- commands/buffer.rs: `set_operate`, a list of operations on one record. The attributes of the
-- message are collected in the first pass, and decide which header is written.
use aerospike_client_rust.Base.{
  ℕ, ◌+◌, ◌%◌, ◌^◌, Bool, true, false, not, ◌&&◌, ◌||◌, List, [], ◌∷◌, length, if◌then◌else◌, ◌==◌,
  bit_or,
}
use aerospike_client_rust.Outcome.{pure, ◌>>=◌, ◌>>◌, lift}
use aerospike_client_rust.Buffer.{M}
use aerospike_client_rust.Buffer.Endian.{Endian}
use aerospike_client_rust.Buffer.Sizing.{begin, size_buffer, end}
use aerospike_client_rust.Key.{Key}
use aerospike_client_rust.Expressions.{Expressions}
use aerospike_client_rust.Operations.{OperationType}
use aerospike_client_rust.Operations.Whole
use aerospike_client_rust.Operations.Whole.{Operation, OperationBin, OperationData}
use aerospike_client_rust.Policy.{WritePolicy}
use aerospike_client_rust.Commands.Sizes.{
  grow, operation_header_size, estimate_key_size, estimate_filter_size,
}
use aerospike_client_rust.Commands.Fields.{write_key, write_filter}
use aerospike_client_rust.Commands.Header.{
  write_header, write_header_with_policy, info1_read, info1_get_all, info1_nobindata, info2_write,
  info2_respond_all_ops,
}
use aerospike_client_rust.Commands.Requests.{with_filter}

-- `read_attr |= …` of a read, by the bin that is read.
unfoldable pub read_of_bin : OperationBin → ℕ → ℕ
read_of_bin OperationBin.none read_attr = bit_or read_attr (bit_or info1_read info1_nobindata)
read_of_bin OperationBin.all read_attr = bit_or read_attr (bit_or info1_read info1_get_all)
read_of_bin (OperationBin.name bin) read_attr = bit_or read_attr info1_read

-- The arms on the type of the operation, on `read_attr` and on `write_attr`.
unfoldable pub read_step : OperationType → OperationBin → ℕ → ℕ
read_step OperationType.read bin read_attr = read_of_bin bin read_attr
read_step OperationType.cdt_read bin read_attr = bit_or read_attr info1_read
read_step OperationType.bit_read bin read_attr = bit_or read_attr info1_read
read_step OperationType.hll_read bin read_attr = bit_or read_attr info1_read
read_step OperationType.exp_read bin read_attr = bit_or read_attr info1_read
read_step _ bin read_attr = read_attr

unfoldable pub write_step : OperationType → ℕ → ℕ
write_step OperationType.read write_attr = write_attr
write_step OperationType.cdt_read write_attr = write_attr
write_step OperationType.bit_read write_attr = write_attr
write_step OperationType.hll_read write_attr = write_attr
write_step OperationType.exp_read write_attr = write_attr
write_step _ write_attr = bit_or write_attr info2_write

-- `matches!(operation.data, CdtMapOp(_) | CdtBitOp(_) | HLLOp(_) | EXPOp(_))`
unfoldable pub each_op : {F : Type 0} → OperationData F → Bool
each_op OperationData.none = false
each_op (OperationData.value v) = false
each_op (OperationData.cdt_list_op cdt_op) = false
each_op (OperationData.cdt_map_op cdt_op) = true
each_op (OperationData.cdt_bit_op cdt_op) = true
each_op (OperationData.hll_op cdt_op) = true
each_op (OperationData.exp_op e) = true

unfoldable pub respond_step : {F : Type 0} → Bool → OperationData F → ℕ → ℕ
respond_step per_each_op what write_attr =
    if per_each_op || each_op what then bit_or write_attr info2_respond_all_ops else write_attr

module _ ⦃endian : Endian⦄ ⦃exprs : Expressions⦄ where
  open exprs use {FilterExpression}

  -- The first loop, with `read_attr` and `write_attr` as they stand.
  unfoldable pub estimate_operations : Bool → List (Operation FilterExpression) → ℕ → ℕ → M (ℕ × ℕ)
  estimate_operations per_each_op [] read_attr write_attr = pure (read_attr, write_attr)
  estimate_operations per_each_op (op ∷ ops) read_attr write_attr = do
    size ← lift (Whole.estimate_size op)
    grow (size + operation_header_size)
    estimate_operations per_each_op ops (read_step op.op op.bin read_attr)
        (respond_step per_each_op op.op_data (write_step op.op write_attr))

  unfoldable pub write_operations : List (Operation FilterExpression) → M (Unit {0})
  write_operations [] = pure tt
  write_operations (op ∷ ops) = do Whole.write_to op; write_operations ops

  -- Without a write the plain header is written.
  unfoldable pub write_operate_header : WritePolicy FilterExpression → ℕ → ℕ → ℕ → ℕ → M (Unit {0})
  write_operate_header policy read_attr write_attr field_count operation_count =
      if write_attr == 0
      then write_header policy.base_policy read_attr write_attr field_count operation_count
      else write_header_with_policy policy read_attr write_attr field_count operation_count

  -- `set_operate` behind its first loop.
  unfoldable pub operate :
      WritePolicy FilterExpression → Key → List (Operation FilterExpression) → ℕ → ℕ → M (Unit {0})
  operate policy key operations read_attr write_attr = do
    field_count ← estimate_key_size key (policy.send_key && not (write_attr == 0))
    filter_size ← estimate_filter_size policy.filter_expression
    size_buffer
    write_operate_header policy read_attr write_attr (with_filter filter_size field_count)
        (length operations % 2 ^ 16)
    write_key key (policy.send_key && not (write_attr == 0))
    write_filter policy.filter_expression filter_size
    write_operations operations
    end

  unfoldable pub set_operate :
      WritePolicy FilterExpression → Key → List (Operation FilterExpression) → M (Unit {0})
  set_operate policy key operations = do
    begin
    attrs ← estimate_operations policy.respond_per_each_op operations 0 0
    operate policy key operations attrs.0 attrs.1
