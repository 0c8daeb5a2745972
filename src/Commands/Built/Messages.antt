-- ===== src/Commands/Built/Messages.antt =====
-- commands/buffer.rs: `set_write`, `set_delete`, `set_touch` and `set_udf` against the wire format.
use aerospike_client_rust.Base.{
  ℕ, ◌+◌, ◌%◌, ◌^◌, ◌≡◌, false, List, ◌++◌, Option, length, length-append, arith,
}
use mathlib.Core.Path.{subst}
use aerospike_client_rust.Buffer.{Buffer, M}
use aerospike_client_rust.Buffer.Endian.{Endian}
use aerospike_client_rust.Value.{Values}
use aerospike_client_rust.Key.{Key}
use aerospike_client_rust.Expressions.{Expressions}
use aerospike_client_rust.Operations.{OperationType}
use aerospike_client_rust.Policy.{WritePolicy}
use aerospike_client_rust.Commands.FieldType.{FieldType}
use aerospike_client_rust.Commands.Sizes.{Bin}
use aerospike_client_rust.Commands.Requests.{with_filter, set_write, set_delete, set_touch, set_udf}
use aerospike_client_rust.Commands.Built.Passes.{Heads}
use aerospike_client_rust.Commands.Built.Frames.{
  built, Finishes-last, Finishes->>, Builds-size, Builds->>=, Builds->>, Builds-begin,
}
use aerospike_client_rust.Commands.Built.Layout.{
  IsKey, AreStorable, AreArguments, IsFilter, filter_bytes, key_count, filter_count, key_fields,
  filter_field, bin_operations, bare_operation, field, args_bytes, bare_head,
}
use aerospike_client_rust.Commands.Built.Estimated.{
  estimate_key_size-Estimates, estimate_filter_size-Estimates, estimate_bins-Estimates,
  estimate_operation_size-Estimates, estimate_udf_size-Estimates, with_filter-count,
}
use aerospike_client_rust.Commands.Built.Written.{
  write_key-Sends, write_filter-Sends, write_bins-Sends, write_operation-Sends, write_args-Sends,
  write_field_string-Sends,
}
use aerospike_client_rust.Commands.Built.Flags.{consistent}
use aerospike_client_rust.Commands.Built.Heads.{
  write_head, write_header-Heads, write_header_with_policy-Heads,
}

pub lengths_2 : (n : ℕ) (x y : List ℕ) → n + length x + length y ≡ n + length (x ++ y)
lengths_2 n x y = omega (arith, length-append x y)

pub lengths_3 :
    (n : ℕ) (x y z : List ℕ) → n + length x + length y + length z ≡ n + length (x ++ (y ++ z))
lengths_3 n x y z = omega (arith, length-append x (y ++ z), length-append y z)

swapped : (x y z : List ℕ) → 30 + length x + length y + length z ≡ 30 + length (x ++ (z ++ y))
swapped x y z = omega (arith, length-append x (z ++ y), length-append z y)

module _ ⦃endian : Endian⦄ ⦃exprs : Expressions⦄ where
  open exprs use {FilterExpression}

  -- The number of fields that the code computes is the number of fields.
  pub counted :
      {head : ℕ → List ℕ} (m : ℕ → M (Unit {0})) (filter : Option FilterExpression) (n : ℕ)
      → ((k : ℕ) → Heads (m k) (head k))
      → IsFilter filter
      → Heads (m (with_filter (length (filter_bytes filter)) n)) (head (n + filter_count filter))
  counted {head = head} m filter n h hf =
      subst (λ k. Heads (m (with_filter (length (filter_bytes filter)) n)) (head k))
        (with_filter-count filter n hf) (h (with_filter (length (filter_bytes filter)) n))

  -- The header of a write with this policy.
  unfoldable pub policy_head : WritePolicy FilterExpression → ℕ → ℕ → ℕ → List ℕ
  policy_head policy write_attr fields operations = write_head policy 0 write_attr fields operations

  -- `set_write` on a key with a digest of twenty bytes and a storable user key, bins of storable
  -- values and a packable filter: whatever the buffer held, it then holds the message with the
  -- policy's header, the fields of the key and of the filter, and one operation for every bin,
  -- if that is not longer than the largest buffer, and else the error says its size.
  pub set_write-Builds :
      (policy : WritePolicy FilterExpression) (op_type : OperationType) (key : Key)
      (bins : List Bin)
      → IsKey key policy.send_key
      → IsFilter policy.filter_expression
      → AreStorable bins
      → (b : Buffer)
      → set_write policy op_type key bins b
        ≡ built b
            (policy_head policy 1
              (key_count key policy.send_key + filter_count policy.filter_expression)
              (length bins % 2 ^ 16))
            (key_fields key policy.send_key
              ++ (filter_field policy.filter_expression ++ bin_operations op_type bins))
  unfolding set_write policy_head
  set_write-Builds policy op_type key bins hk hf hb b =
      Builds-begin
        (Builds->>= _ (estimate_key_size-Estimates key policy.send_key hk) (
          Builds->>= _ (estimate_filter_size-Estimates policy.filter_expression hf) (
            Builds->> (estimate_bins-Estimates op_type bins hb) (
              Builds-size
                (counted _ policy.filter_expression _
                  (λ n.
                    write_header_with_policy-Heads policy 0 1 n (length bins % 2 ^ 16) (omega arith)
                      (omega arith) (omega arith))
                  hf)
                (Finishes->> (write_key-Sends key policy.send_key hk) (
                  Finishes->> (write_filter-Sends policy.filter_expression hf)
                    (Finishes-last (write_bins-Sends op_type bins hb))))
                (lengths_3 30 (key_fields key policy.send_key)
                  (filter_field policy.filter_expression) (bin_operations op_type bins))))))
        b

  -- `set_delete`, under the same conditions: the message of a delete names the key and the filter,
  -- never the user key, and has no operation.
  pub set_delete-Builds :
      (policy : WritePolicy FilterExpression) (key : Key)
      → IsKey key false
      → IsFilter policy.filter_expression
      → (b : Buffer)
      → set_delete policy key b
        ≡ built b
            (policy_head policy 3 (key_count key false + filter_count policy.filter_expression) 0)
            (key_fields key false ++ filter_field policy.filter_expression)
  unfolding set_delete policy_head
  set_delete-Builds policy key hk hf b =
      Builds-begin
        (Builds->>= _ (estimate_key_size-Estimates key false hk) (
          Builds->>= _ (estimate_filter_size-Estimates policy.filter_expression hf) (
            Builds-size
              (counted _ policy.filter_expression _
                (λ n.
                  write_header_with_policy-Heads policy 0 3 n 0 (omega arith) (omega arith)
                    (omega arith))
                hf)
              (Finishes->> (write_key-Sends key false hk)
                (Finishes-last (write_filter-Sends policy.filter_expression hf)))
              (lengths_2 30 (key_fields key false) (filter_field policy.filter_expression)))))
        b

  -- `set_touch`, under the same conditions: the fields of the key and of the filter, and the one
  -- operation that touches the record.
  pub set_touch-Builds :
      (policy : WritePolicy FilterExpression) (key : Key)
      → IsKey key policy.send_key
      → IsFilter policy.filter_expression
      → (b : Buffer)
      → set_touch policy key b
        ≡ built b
            (policy_head policy 1
              (key_count key policy.send_key + filter_count policy.filter_expression)
              1)
            (key_fields key policy.send_key
              ++ (filter_field policy.filter_expression ++ bare_operation OperationType.touch))
  unfolding set_touch policy_head
  set_touch-Builds policy key hk hf b =
      Builds-begin
        (Builds->>= _ (estimate_key_size-Estimates key policy.send_key hk) (
          Builds->>= _ (estimate_filter_size-Estimates policy.filter_expression hf) (
            Builds->> (estimate_operation_size-Estimates OperationType.touch) (
              Builds-size
                (counted _ policy.filter_expression _
                  (λ n.
                    write_header_with_policy-Heads policy 0 1 n 1 (omega arith) (omega arith)
                      (omega arith))
                  hf)
                (Finishes->> (write_key-Sends key policy.send_key hk) (
                  Finishes->> (write_filter-Sends policy.filter_expression hf)
                    (Finishes-last (write_operation-Sends OperationType.touch))))
                (lengths_3 30 (key_fields key policy.send_key)
                  (filter_field policy.filter_expression) (bare_operation OperationType.touch))))))
        b

  -- The fields of a call of a server-side function behind those of the key and of the filter.
  unfoldable pub udf_fields : List ℕ → List ℕ → Option Values → List ℕ
  udf_fields package_name function_name args =
      field FieldType.udf_package_name package_name
      ++ (field FieldType.udf_function function_name
          ++ field FieldType.udf_arg_list (args_bytes args))

  -- `set_udf`, under the same conditions and with arguments that can be packed: the package, the
  -- function and the packed list of the arguments, which is empty where there are none.
  pub set_udf-Builds :
      (policy : WritePolicy FilterExpression) (key : Key)
      → (package_name function_name : List ℕ) (args : Option Values) → IsKey key policy.send_key
      → IsFilter policy.filter_expression
      → AreArguments args
      → (b : Buffer)
      → set_udf policy key package_name function_name args b
        ≡ built b
            (bare_head
              (consistent policy.base_policy.consistency_level 0)
              1
              (key_count key policy.send_key + 3 + filter_count policy.filter_expression)
              0)
            (key_fields key policy.send_key
              ++ (filter_field policy.filter_expression
                  ++ udf_fields package_name function_name args))
  unfolding set_udf udf_fields
  set_udf-Builds policy key package_name function_name args hk hf ha b =
      Builds-begin
        (Builds->>= _ (estimate_key_size-Estimates key policy.send_key hk) (
          Builds->>= _ (estimate_udf_size-Estimates package_name function_name args ha) (
            Builds->>= _ (estimate_filter_size-Estimates policy.filter_expression hf) (
              Builds-size
                (counted _ policy.filter_expression _
                  (λ n. write_header-Heads policy.base_policy 0 1 n 0 (omega arith)) hf)
                (Finishes->> (write_key-Sends key policy.send_key hk) (
                  Finishes->> (write_filter-Sends policy.filter_expression hf) (
                    Finishes->> (write_field_string-Sends FieldType.udf_package_name package_name) (
                      Finishes->> (write_field_string-Sends FieldType.udf_function function_name)
                        (Finishes-last (write_args-Sends FieldType.udf_arg_list args ha))))))
                (swapped (key_fields key policy.send_key)
                  (udf_fields package_name function_name args)
                  (filter_field policy.filter_expression))))))
        b
