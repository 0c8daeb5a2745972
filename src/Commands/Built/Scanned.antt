-- ===== src/Commands/Built/Scanned.antt =====
-- commands/buffer.rs: `set_scan` against the wire format.
use aerospike_client_rust.Base.{
  ℕ, ◌+◌, ◌*◌, ◌%◌, ◌^◌, ◌≡◌, refl, List, [], ◌∷◌, ◌++◌, length, length-append, arith,
}
use aerospike_client_rust.Buffer.{Buffer}
use aerospike_client_rust.Buffer.Endian.{Endian}
use aerospike_client_rust.Buffer.Building
use aerospike_client_rust.Buffer.Building.{Writes}
use aerospike_client_rust.Expressions.{Expressions}
use aerospike_client_rust.Operations.{OperationType}
use aerospike_client_rust.Policy.{Bins}
use aerospike_client_rust.Commands.FieldType.{FieldType}
use aerospike_client_rust.Commands.Built.Flags.{consistent, scan_flags}
use aerospike_client_rust.Commands.Scan.{
  ScanPolicy, estimate_scanned_bins, write_pids, write_partitions, write_scan_timeout,
  write_task_id, write_scanned_bins, set_scan,
}
use aerospike_client_rust.Commands.Built.Passes.{
  Estimates, Estimates-pure, Estimates-grow, Estimates->>, Estimates-eq, Sends, Sends-pure,
}
use aerospike_client_rust.Commands.Built.Frames.{
  built, Finishes-last, Finishes->>, Builds-size, Builds->>=, Builds->>, Builds-begin,
}
use aerospike_client_rust.Commands.Built.Layout.{
  IsFilter, text_count, filter_count, field, text_field, filter_field, name_operations, bare_head,
}
use aerospike_client_rust.Commands.Built.Estimated.{
  length-field, estimate_text-Estimates, estimate_filter_size-Estimates,
  estimate_bin_names-Estimates,
}
use aerospike_client_rust.Commands.Built.Written.{
  Sends-field, write_text-Sends, write_filter-Sends, write_bin_names-Sends,
}
use aerospike_client_rust.Commands.Built.Messages.{counted}
use aerospike_client_rust.Commands.Built.Heads.{write_header_scan-Heads}

module _ ⦃endian : Endian⦄ where
  open endian use {le16, be32, be64}

  -- Two bytes for every partition, the low one first.
  unfoldable pub pid_bytes : List ℕ → List ℕ
  pid_bytes [] = []
  pid_bytes (pid ∷ pids) = le16 pid ++ pid_bytes pids

  pub length-pid_bytes : (pids : List ℕ) → length (pid_bytes pids) ≡ length pids * 2
  unfolding pid_bytes
  length-pid_bytes [] = refl
  length-pid_bytes (pid ∷ pids) = omega (
    arith,
    length-append (le16 pid) (pid_bytes pids),
    endian.length-le16 pid,
    length-pid_bytes pids,
  )

  write_pids-Writes : (pids : List ℕ) → Writes (write_pids pids) tt (pid_bytes pids)
  unfolding write_pids pid_bytes
  write_pids-Writes [] = Building.Writes-pure tt
  write_pids-Writes (pid ∷ pids) =
      Building.Writes->> (Building.Writes-u16_little_endian pid) (write_pids-Writes pids)

  pub write_partitions-Sends :
      (pids : List ℕ)
      → Sends (write_partitions pids) tt (field FieldType.pid_array (pid_bytes pids))
  unfolding write_partitions
  write_partitions-Sends pids =
      Sends-field _ FieldType.pid_array (pid_bytes pids) (omega (arith, length-pid_bytes pids))
        (write_pids-Writes pids)

  write_scan_timeout-Sends :
      (timeout : ℕ)
      → Sends (write_scan_timeout timeout) tt (field FieldType.scan_timeout (be32 timeout))
  unfolding write_scan_timeout
  write_scan_timeout-Sends timeout =
      Sends-field _ FieldType.scan_timeout (be32 timeout)
        (omega (arith, endian.length-be32 timeout))
        (Building.Writes-last tt (Building.Writes-u32 timeout))

  pub write_task_id-Sends :
      (task_id : ℕ) → Sends (write_task_id task_id) tt (field FieldType.tran_id (be64 task_id))
  unfolding write_task_id
  write_task_id-Sends task_id =
      Sends-field _ FieldType.tran_id (be64 task_id) (omega (arith, endian.length-be64 task_id))
        (Building.Writes-last tt (Building.Writes-u64 task_id))

  unfoldable pub named_operations : Bins → List ℕ
  named_operations (Bins.names names) = name_operations OperationType.read names
  named_operations _ = []

  unfoldable pub named_count : Bins → ℕ
  named_count (Bins.names names) = length names
  named_count _ = 0

  estimate_scanned_bins-Estimates :
      (bins : Bins)
      → Estimates (estimate_scanned_bins bins) (named_count bins) (length (named_operations bins))
  unfolding estimate_scanned_bins named_count named_operations
  estimate_scanned_bins-Estimates Bins.all = Estimates-pure 0
  estimate_scanned_bins-Estimates Bins.none = Estimates-pure 0
  estimate_scanned_bins-Estimates (Bins.names names) =
      Estimates-eq
        (Estimates->> (estimate_bin_names-Estimates OperationType.read names) (Estimates-pure _))
        (omega arith)

  write_scanned_bins-Sends :
      (bins : Bins) → Sends (write_scanned_bins bins) tt (named_operations bins)
  unfolding write_scanned_bins named_operations
  write_scanned_bins-Sends Bins.all = Sends-pure tt
  write_scanned_bins-Sends Bins.none = Sends-pure tt
  write_scanned_bins-Sends (Bins.names names) = write_bin_names-Sends OperationType.read names

pub lengths_7 :
    (a b c d e f g : List ℕ)
    → length (a ++ (b ++ (c ++ (d ++ (e ++ (f ++ g))))))
      ≡ length a + length b + length c + length d + length e + length f + length g
lengths_7 a b c d e f g = omega (
  arith,
  length-append a (b ++ (c ++ (d ++ (e ++ (f ++ g))))),
  length-append b (c ++ (d ++ (e ++ (f ++ g)))),
  length-append c (d ++ (e ++ (f ++ g))),
  length-append d (e ++ (f ++ g)),
  length-append e (f ++ g),
  length-append f g,
)

module _ ⦃endian : Endian⦄ ⦃exprs : Expressions⦄ where
  open endian use {be32, be64}
  open exprs use {FilterExpression}

  -- The body of a scan: the fields, and one operation for every bin that is named.
  unfoldable pub scan_body :
      ScanPolicy FilterExpression → List ℕ → List ℕ → Bins → ℕ → List ℕ → List ℕ
  scan_body policy namespace set_name bins task_id partitions =
      text_field FieldType.namespace namespace
      ++ (text_field FieldType.table set_name
          ++ (field FieldType.pid_array (pid_bytes partitions)
              ++ (filter_field policy.filter_expression
                  ++ (field FieldType.scan_timeout (be32 policy.socket_timeout)
                      ++ (field FieldType.tran_id (be64 task_id) ++ named_operations bins)))))

  length-scan_body :
      (policy : ScanPolicy FilterExpression) (namespace set_name : List ℕ) (bins : Bins)
      (task_id : ℕ) (partitions : List ℕ)
      → 30
          + length (filter_field policy.filter_expression)
          + length (text_field FieldType.namespace namespace)
          + length (text_field FieldType.table set_name)
          + (length partitions * 2 + 5)
          + 9
          + 13
          + length (named_operations bins)
        ≡ 30 + length (scan_body policy namespace set_name bins task_id partitions)
  unfolding scan_body
  length-scan_body policy namespace set_name bins task_id partitions = omega (
    arith,
    lengths_7 (text_field FieldType.namespace namespace) (text_field FieldType.table set_name)
        (field FieldType.pid_array (pid_bytes partitions)) (filter_field policy.filter_expression)
        (field FieldType.scan_timeout (be32 policy.socket_timeout))
        (field FieldType.tran_id (be64 task_id)) (named_operations bins),
    length-field FieldType.pid_array (pid_bytes partitions),
    length-pid_bytes partitions,
    length-field FieldType.scan_timeout (be32 policy.socket_timeout),
    endian.length-be32 policy.socket_timeout,
    length-field FieldType.tran_id (be64 task_id),
    endian.length-be64 task_id,
  )

  -- `set_scan` with a packable filter, for every namespace, set, selection of bins and list of
  -- partitions: whatever the buffer held, it then holds the message whose header counts the fields
  -- that follow (those of an empty namespace, an empty set or no filter are left out) and the named
  -- bins, if it is not longer than the largest buffer, and else the error says its size.
  pub set_scan-Builds :
      (policy : ScanPolicy FilterExpression) (namespace set_name : List ℕ) (bins : Bins)
      (task_id : ℕ) (partitions : List ℕ)
      → IsFilter policy.filter_expression
      → (b : Buffer)
      → set_scan policy namespace set_name bins task_id partitions b
        ≡ built b
            (bare_head
              (consistent policy.base_policy.consistency_level (scan_flags bins))
              0
              (0
                + filter_count policy.filter_expression
                + text_count namespace
                + text_count set_name
                + 1
                + 1
                + 1)
              (named_count bins % 2 ^ 16))
            (scan_body policy namespace set_name bins task_id partitions)
  unfolding set_scan scan_body
  set_scan-Builds policy namespace set_name bins task_id partitions hf b =
      Builds-begin
        (Builds->>= _ (estimate_filter_size-Estimates policy.filter_expression hf) (
          Builds->>= _ (estimate_text-Estimates FieldType.namespace namespace) (
            Builds->>= _ (estimate_text-Estimates FieldType.table set_name) (
              Builds->> (Estimates-grow _) (
                Builds->> (Estimates-grow 9) (
                  Builds->> (Estimates-grow 13) (
                    Builds->>= _ (estimate_scanned_bins-Estimates bins) (
                      Builds-size
                        (counted _ policy.filter_expression 0
                          (λ n.
                            write_header_scan-Heads policy.base_policy bins 0
                              (n + text_count namespace + text_count set_name + 1 + 1 + 1)
                              (named_count bins % 2 ^ 16))
                          hf)
                        (Finishes->> (write_text-Sends FieldType.namespace namespace) (
                          Finishes->> (write_text-Sends FieldType.table set_name) (
                            Finishes->> (write_partitions-Sends partitions) (
                              Finishes->> (write_filter-Sends policy.filter_expression hf) (
                                Finishes->> (write_scan_timeout-Sends policy.socket_timeout) (
                                  Finishes->> (write_task_id-Sends task_id)
                                    (Finishes-last (write_scanned_bins-Sends bins))))))))
                        (length-scan_body policy namespace set_name bins task_id partitions)))))))))
        b
