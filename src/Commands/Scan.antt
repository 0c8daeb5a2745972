-- ===== src/Commands/Scan.antt =====
-- commands/buffer.rs: `set_scan`, the command that asks a node for the records of partitions.
use aerospike_client_rust.Base.{ℕ, ◌+◌, ◌*◌, ◌%◌, ◌^◌, Option, List, [], ◌∷◌, length, bit_or}
use aerospike_client_rust.Outcome.{pure, ◌>>=◌, ◌>>◌}
use aerospike_client_rust.Buffer.{M}
use aerospike_client_rust.Buffer.Endian.{Endian}
use aerospike_client_rust.Buffer.Sizing.{begin, size_buffer, end}
use aerospike_client_rust.Buffer.Writes.{write_u16_little_endian, write_u32, write_u64}
use aerospike_client_rust.Expressions.{Expressions}
use aerospike_client_rust.Operations.{OperationType}
use aerospike_client_rust.Policy.{BasePolicy, Bins}
use aerospike_client_rust.Commands.FieldType.{FieldType}
use aerospike_client_rust.Commands.Sizes.{
  field_header_size, grow, estimate_text, estimate_filter_size, estimate_bin_names,
}
use aerospike_client_rust.Commands.Fields.{
  write_text, write_field_header, write_filter, write_bin_names,
}
use aerospike_client_rust.Commands.Header.{write_header, info1_read, info1_nobindata}
use aerospike_client_rust.Commands.Requests.{with_filter}

-- The fields of the policy that the command reads.
pub record ScanPolicy (F : Type 0) : Type 0 where
  pub base_policy : BasePolicy F
  pub socket_timeout : ℕ
  pub filter_expression : Option F

unfoldable pub estimate_scanned_bins : Bins → M ℕ
estimate_scanned_bins Bins.all = pure 0
estimate_scanned_bins Bins.none = pure 0
estimate_scanned_bins (Bins.names names) = do estimate_bin_names names; pure (length names)

unfoldable pub scan_attr : Bins → ℕ
scan_attr Bins.none = bit_or info1_read info1_nobindata
scan_attr _ = info1_read

module _ ⦃endian : Endian⦄ where
  unfoldable pub write_pids : List ℕ → M (Unit {0})
  write_pids [] = pure tt
  write_pids (pid ∷ pids) = do write_u16_little_endian pid; write_pids pids

  unfoldable pub write_partitions : List ℕ → M (Unit {0})
  write_partitions partitions = do
    write_field_header (length partitions * 2) FieldType.pid_array
    write_pids partitions

  unfoldable pub write_scan_timeout : ℕ → M (Unit {0})
  write_scan_timeout socket_timeout = do
    write_field_header 4 FieldType.scan_timeout
    write_u32 socket_timeout
    pure tt

  unfoldable pub write_task_id : ℕ → M (Unit {0})
  write_task_id task_id = do write_field_header 8 FieldType.tran_id; write_u64 task_id; pure tt

  unfoldable pub write_scanned_bins : Bins → M (Unit {0})
  write_scanned_bins (Bins.names names) = write_bin_names names OperationType.read
  write_scanned_bins _ = pure tt

module _ ⦃endian : Endian⦄ ⦃exprs : Expressions⦄ where
  open exprs use {FilterExpression}

  unfoldable pub set_scan :
      ScanPolicy FilterExpression → List ℕ → List ℕ → Bins → ℕ → List ℕ → M (Unit {0})
  set_scan policy namespace set_name bins task_id partitions = do
    begin
    filter_size ← estimate_filter_size policy.filter_expression
    namespaces ← estimate_text namespace
    sets ← estimate_text set_name
    grow (length partitions * 2 + field_header_size)
    grow (4 + field_header_size)
    grow (8 + field_header_size)
    bin_count ← estimate_scanned_bins bins
    size_buffer
    write_header policy.base_policy (scan_attr bins) 0
        (with_filter filter_size 0 + namespaces + sets + 1 + 1 + 1) (bin_count % 2 ^ 16)
    write_text namespace FieldType.namespace
    write_text set_name FieldType.table
    write_partitions partitions
    write_filter policy.filter_expression filter_size
    write_scan_timeout policy.socket_timeout
    write_task_id task_id
    write_scanned_bins bins
    end
