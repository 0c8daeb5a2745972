-- ===== src/Commands/Built/Reading.antt =====
-- commands/buffer.rs: the commands that read one record against the wire format: `set_exists` and
-- `set_read`, which is `set_read_header`, `set_read_for_key_only` or a read of named bins.
use aerospike_client_rust.Base.{
  ℕ, ◌+◌, ◌%◌, ◌^◌, ◌≡◌, sym, ap, ◌∙◌, false, List, [], ◌++◌, length, append-nil, arith,
}
use aerospike_client_rust.Outcome.{Outcome}
use aerospike_client_rust.Buffer.{Buffer}
use aerospike_client_rust.Buffer.Endian.{Endian}
use aerospike_client_rust.Key.{Key}
use aerospike_client_rust.Expressions.{Expressions}
use aerospike_client_rust.Operations.{OperationType}
use aerospike_client_rust.Policy.{ReadPolicy, WritePolicy, Bins}
use aerospike_client_rust.Commands.Built.Flags.{consistent}
use aerospike_client_rust.Commands.Requests.{
  set_exists, set_read_header, set_read_for_key_only, set_read_bins, set_read,
}
use aerospike_client_rust.Commands.Built.Frames.{
  built, Finishes-last, Finishes->>, Builds-size, Builds->>=, Builds->>, Builds-begin,
}
use aerospike_client_rust.Commands.Built.Layout.{
  IsKey, IsFilter, key_count, filter_count, key_fields, filter_field, name_operation,
  name_operations, bare_head,
}
use aerospike_client_rust.Commands.Built.Estimated.{
  estimate_key_size-Estimates, estimate_filter_size-Estimates, estimate_bin_name-Estimates,
  estimate_bin_names-Estimates,
}
use aerospike_client_rust.Commands.Built.Written.{
  write_key-Sends, write_filter-Sends, write_bin_name-Sends, write_bin_names-Sends,
}
use aerospike_client_rust.Commands.Built.Messages.{lengths_2, lengths_3, counted}
use aerospike_client_rust.Commands.Built.Heads.{write_header-Heads}

module _ ⦃endian : Endian⦄ ⦃exprs : Expressions⦄ where
  open exprs use {FilterExpression}

  -- `set_exists` on a key with a digest of twenty bytes and a packable filter: the message asks for
  -- no bins, and has the fields of the key and of the filter and no operation.
  pub set_exists-Builds :
      (policy : WritePolicy FilterExpression) (key : Key)
      → IsKey key false
      → IsFilter policy.filter_expression
      → (b : Buffer)
      → set_exists policy key b
        ≡ built b
            (bare_head
              (consistent policy.base_policy.consistency_level 33)
              0
              (key_count key false + filter_count policy.filter_expression)
              0)
            (key_fields key false ++ filter_field policy.filter_expression)
  unfolding set_exists
  set_exists-Builds policy key hk hf b =
      Builds-begin
        (Builds->>= _ (estimate_key_size-Estimates key false hk) (
          Builds->>= _ (estimate_filter_size-Estimates policy.filter_expression hf) (
            Builds-size
              (counted _ policy.filter_expression _
                (λ n. write_header-Heads policy.base_policy 33 0 n 0 (omega arith)) hf)
              (Finishes->> (write_key-Sends key false hk)
                (Finishes-last (write_filter-Sends policy.filter_expression hf)))
              (lengths_2 30 (key_fields key false) (filter_field policy.filter_expression)))))
        b

  -- What a selection of bins asks for: the attributes, the operations and their number.
  unfoldable pub read_flags : Bins → ℕ
  read_flags Bins.none = 33
  read_flags Bins.all = 3
  read_flags (Bins.names names) = 1

  unfoldable pub read_operations : Bins → List ℕ
  read_operations Bins.none = name_operation OperationType.read []
  read_operations Bins.all = []
  read_operations (Bins.names names) = name_operations OperationType.read names

  unfoldable pub read_count : Bins → ℕ
  read_count Bins.none = 1
  read_count Bins.all = 0
  read_count (Bins.names names) = length names % 2 ^ 16

  -- The message of a read of these bins.
  unfoldable pub read_message :
      ReadPolicy FilterExpression → Key → Bins → Buffer → Outcome (Unit {0} × Buffer)
  read_message policy key bins b =
      built b
        (bare_head (consistent policy.consistency_level (read_flags bins)) 0
          (key_count key false + filter_count policy.filter_expression) (read_count bins))
        (key_fields key false ++ (filter_field policy.filter_expression ++ read_operations bins))

  set_read_header-Builds :
      (policy : ReadPolicy FilterExpression) (key : Key)
      → IsKey key false
      → IsFilter policy.filter_expression
      → (b : Buffer) → set_read_header policy key b ≡ read_message policy key Bins.none b
  unfolding set_read_header read_message read_flags read_operations read_count
  set_read_header-Builds policy key hk hf b =
      Builds-begin
        (Builds->>= _ (estimate_key_size-Estimates key false hk) (
          Builds->>= _ (estimate_filter_size-Estimates policy.filter_expression hf) (
            Builds->> (estimate_bin_name-Estimates OperationType.read []) (
              Builds-size
                (counted _ policy.filter_expression _
                  (λ n. write_header-Heads policy 33 0 n 1 (omega arith)) hf)
                (Finishes->> (write_key-Sends key false hk) (
                  Finishes->> (write_filter-Sends policy.filter_expression hf)
                    (Finishes-last (write_bin_name-Sends OperationType.read []))))
                (lengths_3 30 (key_fields key false) (filter_field policy.filter_expression)
                  (name_operation OperationType.read []))))))
        b

  set_read_for_key_only-Builds :
      (policy : ReadPolicy FilterExpression) (key : Key)
      → IsKey key false
      → IsFilter policy.filter_expression
      → (b : Buffer) → set_read_for_key_only policy key b ≡ read_message policy key Bins.all b
  unfolding set_read_for_key_only read_message read_flags read_operations read_count
  set_read_for_key_only-Builds policy key hk hf b =
      let filter : List ℕ = filter_field policy.filter_expression in
      let head : List ℕ =
        bare_head (consistent policy.consistency_level 3) 0
          (key_count key false + filter_count policy.filter_expression) 0 in
      Builds-begin
        (Builds->>= _ (estimate_key_size-Estimates key false hk) (
          Builds->>= _ (estimate_filter_size-Estimates policy.filter_expression hf) (
            Builds-size
              (counted _ policy.filter_expression _
                (λ n. write_header-Heads policy 3 0 n 0 (omega arith)) hf)
              (Finishes->> (write_key-Sends key false hk)
                (Finishes-last (write_filter-Sends policy.filter_expression hf)))
              (lengths_2 30 (key_fields key false) filter))))
        b
      ∙ ap (λ t. built b head (key_fields key false ++ t)) (sym (append-nil filter))

  set_read_bins-Builds :
      (policy : ReadPolicy FilterExpression) (key : Key) (names : List (List ℕ))
      → IsKey key false
      → IsFilter policy.filter_expression
      → (b : Buffer)
      → set_read_bins policy key names b ≡ read_message policy key (Bins.names names) b
  unfolding set_read_bins read_message read_flags read_operations read_count
  set_read_bins-Builds policy key names hk hf b =
      Builds-begin
        (Builds->>= _ (estimate_key_size-Estimates key false hk) (
          Builds->>= _ (estimate_filter_size-Estimates policy.filter_expression hf) (
            Builds->> (estimate_bin_names-Estimates OperationType.read names) (
              Builds-size
                (counted _ policy.filter_expression _
                  (λ n. write_header-Heads policy 1 0 n (length names % 2 ^ 16) (omega arith)) hf)
                (Finishes->> (write_key-Sends key false hk) (
                  Finishes->> (write_filter-Sends policy.filter_expression hf)
                    (Finishes-last (write_bin_names-Sends OperationType.read names))))
                (lengths_3 30 (key_fields key false) (filter_field policy.filter_expression)
                  (name_operations OperationType.read names))))))
        b

  -- `set_read` on a key with a digest of twenty bytes and a packable filter builds, for every
  -- selection of bins, the message that asks for them: without bins the operation that reads no
  -- name, with all bins none, and with names one operation for each name.
  pub set_read-Builds :
      (policy : ReadPolicy FilterExpression) (key : Key) (bins : Bins)
      → IsKey key false
      → IsFilter policy.filter_expression
      → (b : Buffer) → set_read policy key bins b ≡ read_message policy key bins b
  unfolding set_read
  set_read-Builds policy key Bins.none hk hf b = set_read_header-Builds policy key hk hf b
  set_read-Builds policy key Bins.all hk hf b = set_read_for_key_only-Builds policy key hk hf b
  set_read-Builds policy key (Bins.names names) hk hf b =
      set_read_bins-Builds policy key names hk hf b
