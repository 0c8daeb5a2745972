-- ===== src/Query.antt =====
-- query/: statements and their filters, and the types of index_types.rs that they use.
use aerospike_client_rust.Base.{
  ℕ, ◌+◌, ◌%◌, ◌^◌, Bool, true, Option, none, some, List, [], ◌∷◌, ◌++◌, length,
}
use aerospike_client_rust.Outcome.{pure, ◌>>=◌, ◌>>◌, lift}
use aerospike_client_rust.Buffer.{M}
use aerospike_client_rust.Buffer.Endian.{Endian}
use aerospike_client_rust.Buffer.Writes.{write_u8, write_u32, write_str}
use aerospike_client_rust.Value.{Value, Values}
use aerospike_client_rust.Value.Wire
use aerospike_client_rust.Policy.{Bins}
use aerospike_client_rust.Commands.ParticleType
use aerospike_client_rust.Commands.ParticleType.{ParticleType}
use aerospike_client_rust.Commands.Sizes.{is_empty}

pub data CollectionIndexType : Type 0 where
  default list map_keys map_values : CollectionIndexType

-- `idx_type as u8`
unfoldable pub index_code : CollectionIndexType → ℕ
index_code CollectionIndexType.default = 0
index_code CollectionIndexType.list = 1
index_code CollectionIndexType.map_keys = 2
index_code CollectionIndexType.map_values = 3

pub record Filter : Type 0 where
  pub bin_name : List ℕ
  pub collection_index_type : CollectionIndexType
  pub value_particle_type : ParticleType
  pub begin : Value
  pub end : Value

pub record Aggregation : Type 0 where
  pub package_name : List ℕ
  pub function_name : List ℕ
  pub function_args : Option Values

pub record Statement : Type 0 where
  pub namespace : List ℕ
  pub set_name : List ℕ
  pub index_name : Option (List ℕ)
  pub bins : Bins
  pub filters : Option (List Filter)
  pub aggregation : Option Aggregation

unfoldable pub new : List ℕ → List ℕ → Bins → Statement
new namespace set_name bins = record {
  namespace = namespace;
  set_name = set_name;
  index_name = none;
  bins = bins;
  filters = none;
  aggregation = none;
}

unfoldable pub push_filter : Option (List Filter) → Filter → List Filter
push_filter (some filters) filter = filters ++ (filter ∷ [])
push_filter none filter = filter ∷ []

unfoldable pub add_filter : Statement → Filter → Statement
add_filter self filter = record self { filters = some (push_filter self.filters filter) }

unfoldable pub set_aggregate_function : Statement → List ℕ → List ℕ → Option Values → Statement
set_aggregate_function self package_name function_name function_args = record self {
  aggregation = some (record {
    package_name = package_name;
    function_name = function_name;
    function_args = function_args;
  });
}

-- `match self.filters { Some(ref filters) => filters.is_empty(), None => true }`
unfoldable pub are_none : Option (List Filter) → Bool
are_none (some filters) = is_empty filters
are_none none = true

unfoldable pub is_scan : Statement → Bool
is_scan self = are_none self.filters

module _ ⦃endian : Endian⦄ where
  unfoldable pub estimate_size : Filter → M ℕ
  estimate_size self = do
    begin_size ← lift (Wire.estimate_size self.begin)
    end_size ← lift (Wire.estimate_size self.end)
    pure (length self.bin_name + begin_size + end_size + 10)

  unfoldable pub write : Filter → M (Unit {0})
  write self = do
    write_u8 (length self.bin_name % 2 ^ 8)
    write_str self.bin_name
    write_u8 (ParticleType.code self.value_particle_type)
    begin_size ← lift (Wire.estimate_size self.begin)
    write_u32 (begin_size % 2 ^ 32)
    Wire.write_to self.begin
    end_size ← lift (Wire.estimate_size self.end)
    write_u32 (end_size % 2 ^ 32)
    Wire.write_to self.end
    pure tt
