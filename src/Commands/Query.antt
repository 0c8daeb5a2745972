-- ===== src/Commands/Query.antt =====
-- commands/buffer.rs: `set_query`, the command of a statement: a query on a secondary index if it
-- has a filter, and else a scan of partitions.
use aerospike_client_rust.Base.{
  ℕ, ◌+◌, ◌*◌, ◌%◌, ◌^◌, Bool, true, Option, none, some, List, [], ◌∷◌, length, if◌then◌else◌,
}
use aerospike_client_rust.Outcome.{ok, panic, pure, ◌>>=◌, ◌>>◌}
use aerospike_client_rust.Buffer.{M}
use aerospike_client_rust.Buffer.Endian.{Endian}
use aerospike_client_rust.Buffer.Sizing.{begin, size_buffer, end}
use aerospike_client_rust.Buffer.Writes.{write_u8, write_str}
use aerospike_client_rust.Expressions.{Expressions}
use aerospike_client_rust.Operations.{OperationType}
use aerospike_client_rust.Policy.{BasePolicy, Bins}
use aerospike_client_rust.Query
use aerospike_client_rust.Query.{
  CollectionIndexType, index_code, Filter, Aggregation, Statement, is_scan,
}
use aerospike_client_rust.Commands.FieldType.{FieldType}
use aerospike_client_rust.Commands.Sizes.{
  field_header_size, grow, estimate_text, estimate_filter_size, estimate_args_size,
  estimate_bin_names,
}
use aerospike_client_rust.Commands.Fields.{
  write_text, write_field_header, write_field_string, write_filter, write_args, write_bin_names,
}
use aerospike_client_rust.Commands.Header.{write_header, info2_write}
use aerospike_client_rust.Commands.Requests.{with_filter}
use aerospike_client_rust.Commands.Scan.{scan_attr, write_partitions, write_task_id}

-- The fields of the policy that the command reads.
pub record QueryPolicy (F : Type 0) : Type 0 where
  pub base_policy : BasePolicy F
  pub filter_expression : Option F

-- `Some(ref filters) => Some(&filters[0])`
unfoldable pub first_filter : Option (List Filter) → M (Option Filter)
first_filter (some (filter ∷ filters)) b = ok (some filter, b)
first_filter (some []) b = panic
first_filter none b = ok (none, b)

unfoldable pub estimate_index_name : Option (List ℕ) → M ℕ
estimate_index_name none = pure 0
estimate_index_name (some index_name) = estimate_text index_name

unfoldable pub estimate_index_type : CollectionIndexType → M ℕ
estimate_index_type CollectionIndexType.default = pure 0
estimate_index_type _ = do grow (1 + field_header_size); pure 1

-- `for bin_name in bin_names { bin_name_size += bin_name.len() + 1; }`
unfoldable pub names_size : List (List ℕ) → ℕ
names_size [] = 0
names_size (name ∷ names) = length name + 1 + names_size names

-- The size of the list of the bins' names, and the number of fields.
unfoldable pub estimate_bin_list : Bins → M (ℕ × ℕ)
estimate_bin_list (Bins.names names) = do
  grow field_header_size
  grow (1 + names_size names)
  pure (1 + names_size names, 1)
estimate_bin_list _ = pure (0, 0)

-- `filter_size`, `bin_name_size` and what a branch adds to `field_count`.
pub record Selected : Type 0 where
  pub filter_size : ℕ
  pub bin_name_size : ℕ
  pub field_count : ℕ

unfoldable pub estimate_query_bins : Bool → Bins → M (Unit {0})
estimate_query_bins true (Bins.names names) = estimate_bin_names names
estimate_query_bins _ _ = pure tt

unfoldable pub query_count : Bool → Bins → ℕ
query_count true (Bins.names names) = length names
query_count _ _ = 0

unfoldable pub udf_op_of : Bins → ℕ
udf_op_of Bins.none = 2
udf_op_of _ = 1

module _ ⦃endian : Endian⦄ where
  unfoldable pub estimate_selection : Option Filter → Bins → List ℕ → M Selected
  estimate_selection none bins partitions = do
    grow (length partitions * 2 + field_header_size)
    pure (record { filter_size = 0; bin_name_size = 0; field_count = 1 })
  estimate_selection (some filter) bins partitions = do
    index_types ← estimate_index_type filter.collection_index_type
    size ← Query.estimate_size filter
    grow (1 + size + field_header_size)
    (bin_name_size, lists) ← estimate_bin_list bins
    pure (record {
      filter_size = 1 + size;
      bin_name_size = bin_name_size;
      field_count = index_types + 1 + lists;
    })

  unfoldable pub estimate_aggregation : Option Aggregation → M ℕ
  estimate_aggregation none = pure 0
  estimate_aggregation (some aggregation) = do
    grow (1 + field_header_size)
    grow (length aggregation.package_name + field_header_size)
    grow (length aggregation.function_name + field_header_size)
    estimate_args_size aggregation.function_args
    pure 4

  unfoldable pub write_index_name : Option (List ℕ) → M (Unit {0})
  write_index_name none = pure tt
  write_index_name (some index_name) = write_text index_name FieldType.index_name

  unfoldable pub write_index_type : CollectionIndexType → M (Unit {0})
  write_index_type CollectionIndexType.default = pure tt
  write_index_type index_type = do
    write_field_header 1 FieldType.index_type
    write_u8 (index_code index_type)
    pure tt

  unfoldable pub write_index_range : Filter → ℕ → M (Unit {0})
  write_index_range filter filter_size = do
    write_field_header filter_size FieldType.index_range
    write_u8 1
    Query.write filter

  unfoldable pub write_list_names : List (List ℕ) → M (Unit {0})
  write_list_names [] = pure tt
  write_list_names (name ∷ names) = do
    write_u8 (length name % 2 ^ 8)
    write_str name
    write_list_names names

  -- `if !bin_names.is_empty() { … }`
  unfoldable pub write_bin_list : Bins → ℕ → M (Unit {0})
  write_bin_list (Bins.names (name ∷ names)) bin_name_size = do
    write_field_header bin_name_size FieldType.query_bin_list
    write_u8 (length (name ∷ names) % 2 ^ 8)
    write_list_names (name ∷ names)
  write_bin_list _ bin_name_size = pure tt

  unfoldable pub write_selection : Option Filter → Bins → List ℕ → Selected → M (Unit {0})
  write_selection none bins partitions selected = write_partitions partitions
  write_selection (some filter) bins partitions selected = do
    write_index_type filter.collection_index_type
    write_index_range filter selected.filter_size
    write_bin_list bins selected.bin_name_size

  unfoldable pub write_udf_op : Bins → M (Unit {0})
  write_udf_op bins = do write_field_header 1 FieldType.udf_op; write_u8 (udf_op_of bins); pure tt

  unfoldable pub write_aggregation : Bins → Option Aggregation → M (Unit {0})
  write_aggregation bins none = pure tt
  write_aggregation bins (some aggregation) = do
    write_udf_op bins
    write_field_string aggregation.package_name FieldType.udf_package_name
    write_field_string aggregation.function_name FieldType.udf_function
    write_args aggregation.function_args FieldType.udf_arg_list

  unfoldable pub write_query_bins : Bool → Bins → M (Unit {0})
  write_query_bins true (Bins.names names) = write_bin_names names OperationType.read
  write_query_bins _ _ = pure tt

module _ ⦃endian : Endian⦄ ⦃exprs : Expressions⦄ where
  open exprs use {FilterExpression}

  unfoldable pub set_query :
      QueryPolicy FilterExpression → Statement → Bool → ℕ → List ℕ → M (Unit {0})
  set_query policy statement write task_id partitions = do
    filter ← first_filter statement.filters
    begin
    namespaces ← estimate_text statement.namespace
    sets ← estimate_text statement.set_name
    index_names ← estimate_index_name statement.index_name
    grow (8 + field_header_size)
    selected ← estimate_selection filter statement.bins partitions
    filter_size ← estimate_filter_size policy.filter_expression
    aggregations ← estimate_aggregation statement.aggregation
    estimate_query_bins (is_scan statement) statement.bins
    size_buffer
    write_header policy.base_policy (scan_attr statement.bins) (if write then info2_write else 0)
        (with_filter filter_size (namespaces + sets + index_names + 1 + selected.field_count)
          + aggregations)
        (query_count (is_scan statement) statement.bins % 2 ^ 16)
    write_text statement.namespace FieldType.namespace
    write_index_name statement.index_name
    write_text statement.set_name FieldType.table
    write_task_id task_id
    write_selection filter statement.bins partitions selected
    write_filter policy.filter_expression filter_size
    write_aggregation statement.bins statement.aggregation
    write_query_bins (is_scan statement) statement.bins
    end
