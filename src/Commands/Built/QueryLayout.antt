-- ===== src/Commands/Built/QueryLayout.antt =====
-- commands/buffer.rs: the wire format of a query.
use aerospike_client_rust.Base.{ℕ, ◌+◌, ◌%◌, ◌^◌, Option, none, some, List, [], ◌∷◌, ◌++◌, length}
use aerospike_client_rust.Buffer.Endian.{Endian}
use aerospike_client_rust.Value.Wire.{payload, IsStorable}
use aerospike_client_rust.Operations.{OperationType}
use aerospike_client_rust.Policy.{Bins}
use aerospike_client_rust.Query.{CollectionIndexType, Filter, Aggregation}
use aerospike_client_rust.Commands.ParticleType
use aerospike_client_rust.Commands.FieldType.{FieldType}
use aerospike_client_rust.Commands.Query.{Selected}
use aerospike_client_rust.Commands.Built.Layout.{
  AreArguments, text_count, field, text_field, args_bytes, name_operations,
}
use aerospike_client_rust.Commands.Built.Scanned.{pid_bytes}

-- The filter that a query uses, and what it must be.
unfoldable pub first : Option (List Filter) → Option Filter
first (some (filter ∷ filters)) = some filter
first _ = none

unfoldable pub HasFirst : Option (List Filter) → Type 0
HasFirst (some []) = ⊥
HasFirst _ = Unit {0}

unfoldable pub HasNames : Bins → Type 0
HasNames (Bins.names []) = ⊥
HasNames _ = Unit {0}

unfoldable pub IsSelectable : Option Filter → Bins → Type 0
IsSelectable none bins = Unit {0}
IsSelectable (some filter) bins = IsStorable filter.begin × IsStorable filter.end × HasNames bins

unfoldable pub IsCallable : Option Aggregation → Type 0
IsCallable none = Unit {0}
IsCallable (some aggregation) = AreArguments aggregation.function_args

-- The number of fields that a part of a query has.
unfoldable pub index_name_count : Option (List ℕ) → ℕ
index_name_count none = 0
index_name_count (some index_name) = text_count index_name

unfoldable pub index_type_count : CollectionIndexType → ℕ
index_type_count CollectionIndexType.default = 0
index_type_count _ = 1

unfoldable pub bin_list_count : Bins → ℕ
bin_list_count (Bins.names names) = 1
bin_list_count _ = 0

unfoldable pub selection_count : Option Filter → Bins → ℕ
selection_count none bins = 1
selection_count (some filter) bins =
    index_type_count filter.collection_index_type + 1 + bin_list_count bins

unfoldable pub aggregation_count : Option Aggregation → ℕ
aggregation_count none = 0
aggregation_count (some aggregation) = 4

unfoldable pub names_bytes : List (List ℕ) → List ℕ
names_bytes [] = []
names_bytes (name ∷ names) = (length name % 2 ^ 8 ∷ name) ++ names_bytes names

unfoldable pub bin_list_bytes : Bins → List ℕ
bin_list_bytes (Bins.names names) = length names % 2 ^ 8 ∷ names_bytes names
bin_list_bytes _ = []

-- The kind of an aggregation: 2 where no bins are asked for.
unfoldable pub aggregation_op : Bins → ℕ
aggregation_op Bins.all = 1
aggregation_op Bins.none = 2
aggregation_op (Bins.names names) = 1

-- Named bins are operations where no filter selects.
unfoldable pub operation_count : Option Filter → Bins → ℕ
operation_count none (Bins.names names) = length names
operation_count _ _ = 0

module _ ⦃endian : Endian⦄ where
  open endian use {be32}

  unfoldable pub index_name_field : Option (List ℕ) → List ℕ
  index_name_field none = []
  index_name_field (some index_name) = text_field FieldType.index_name index_name

  unfoldable pub index_type_field : CollectionIndexType → List ℕ
  index_type_field CollectionIndexType.default = []
  index_type_field CollectionIndexType.list = field FieldType.index_type (1 ∷ [])
  index_type_field CollectionIndexType.map_keys = field FieldType.index_type (2 ∷ [])
  index_type_field CollectionIndexType.map_values = field FieldType.index_type (3 ∷ [])

  -- One filter: the name of its bin, the type of its values, and the two ends of the range.
  unfoldable pub range_bytes : Filter → List ℕ
  range_bytes filter =
      length filter.bin_name % 2 ^ 8
      ∷ (filter.bin_name
          ++ (ParticleType.code filter.value_particle_type
              ∷ (be32 (length (payload filter.begin) % 2 ^ 32)
                  ++ (payload filter.begin
                      ++ (be32 (length (payload filter.end) % 2 ^ 32) ++ payload filter.end)))))

  unfoldable pub bin_list_field : Bins → List ℕ
  bin_list_field (Bins.names names) =
      field FieldType.query_bin_list (bin_list_bytes (Bins.names names))
  bin_list_field _ = []

  -- What is selected: by a filter with the bins to read, or by partitions.
  unfoldable pub selection_fields : Option Filter → Bins → List ℕ → List ℕ
  selection_fields none bins partitions = field FieldType.pid_array (pid_bytes partitions)
  selection_fields (some filter) bins partitions =
      index_type_field filter.collection_index_type
      ++ (field FieldType.index_range (1 ∷ range_bytes filter) ++ bin_list_field bins)

  unfoldable pub aggregation_fields : Bins → Option Aggregation → List ℕ
  aggregation_fields bins none = []
  aggregation_fields bins (some aggregation) =
      field FieldType.udf_op (aggregation_op bins ∷ [])
      ++ (field FieldType.udf_package_name aggregation.package_name
          ++ (field FieldType.udf_function aggregation.function_name
              ++ field FieldType.udf_arg_list (args_bytes aggregation.function_args)))

  unfoldable pub query_operations : Option Filter → Bins → List ℕ
  query_operations none (Bins.names names) = name_operations OperationType.read names
  query_operations _ _ = []

  unfoldable pub range_size : Option Filter → ℕ
  range_size none = 0
  range_size (some filter) = 1 + length (range_bytes filter)

  unfoldable pub bin_list_size : Option Filter → Bins → ℕ
  bin_list_size none bins = 0
  bin_list_size (some filter) bins = length (bin_list_bytes bins)

  -- What the first pass finds out about the selection.
  unfoldable pub selected : Option Filter → Bins → Selected
  selected filter bins = record {
    filter_size = range_size filter;
    bin_name_size = bin_list_size filter bins;
    field_count = selection_count filter bins;
  }
