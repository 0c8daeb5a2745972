-- ===== src/Tests/Sending.antt =====
-- Commands on a concrete key, with a filter and without one.
use aerospike_client_rust.Base.{
  ℕ, ◌+◌, ◌≡◌, refl, Bool, true, false, List, [], ◌∷◌, ◌++◌, Option, none, some, replicate, pos,
  negsuc,
}
use aerospike_client_rust.Outcome.{ok}
use aerospike_client_rust.Buffer.{Buffer}
use aerospike_client_rust.Buffer.Sizing
use aerospike_client_rust.Value.{Value, Values, no_values, values}
use aerospike_client_rust.Value.Wire.{IsStorable}
use aerospike_client_rust.Msgpack.Format.{IsPackable}
use aerospike_client_rust.Key
use aerospike_client_rust.Key.{Key}
use aerospike_client_rust.Key.Digest.{new-IsKey, IsKeyValue, hashed_key}
use aerospike_client_rust.Operations.{OperationType}
use aerospike_client_rust.Policy.{
  Priority, ConsistencyLevel, CommitLevel, GenerationPolicy, RecordExistsAction, Expiration,
  BasePolicy, WritePolicy, Bins,
}
use aerospike_client_rust.Commands.Sizes.{Bin}
use aerospike_client_rust.Commands.Built.Flags.{consistent}
use aerospike_client_rust.Commands.Requests.{
  set_write, set_delete, set_touch, set_exists, set_read, set_udf,
}
use aerospike_client_rust.Commands.Built.Frames.{built}
use aerospike_client_rust.Commands.Built.Layout.{
  IsKey, IsUserKey, AreStorable, AreArguments, IsFilter, key_count, filter_count, key_fields,
  filter_field, bin_operations, bare_operation, bare_head,
}
use aerospike_client_rust.Commands.Built.Messages.{
  policy_head, udf_fields, set_write-Builds, set_delete-Builds, set_touch-Builds, set_udf-Builds,
}
use aerospike_client_rust.Commands.Built.Reading.{read_message, set_exists-Builds, set_read-Builds}
use aerospike_client_rust.Tests.Crates.{by_division, by_padding, texts}

abbrev pub a_buffer : Buffer
a_buffer = Sizing.new 65536

abbrev pub a_key : Key
a_key = record {
  namespace = 116 ∷ 101 ∷ 115 ∷ 116 ∷ [];
  set_name = 115 ∷ [];
  user_key = some (Value.int (negsuc 4));
  digest = replicate 20 9;
}

abbrev pub a_filter : Option (List ℕ)
a_filter = some (102 ∷ [])

abbrev pub read_policy : BasePolicy (List ℕ)
read_policy = record {
  priority = Priority.default;
  consistency_level = ConsistencyLevel.consistency_all;
  timeout = none;
  max_retries = some 2;
  sleep_between_retries = none;
  filter_expression = a_filter;
}

abbrev pub write_policy : WritePolicy (List ℕ)
write_policy = record {
  base_policy = read_policy;
  record_exists_action = RecordExistsAction.replace;
  generation_policy = GenerationPolicy.expect_gen_equal;
  commit_level = CommitLevel.commit_master;
  generation = 5;
  expiration = Expiration.never;
  send_key = true;
  respond_per_each_op = false;
  durable_delete = true;
  filter_expression = a_filter;
}

abbrev some_bins : List Bin
some_bins =
    record { name = 97 ∷ []; value = Value.int (pos 12) }
    ∷ record { name = 98 ∷ []; value = Value.string (120 ∷ 121 ∷ []) }
    ∷ []

abbrev some_args : Option Values
some_args = some (values (Value.int (pos 1)) no_values)

pub a_key-IsKey : IsKey a_key true
unfolding IsKey IsUserKey IsStorable
a_key-IsKey = (refl, tt)

a_key-IsKey_bare : IsKey a_key false
unfolding IsKey IsUserKey
a_key-IsKey_bare = (refl, tt)

pub a_filter-IsFilter : IsFilter a_filter
unfolding IsFilter
a_filter-IsFilter = tt

some_bins-AreStorable : AreStorable some_bins
unfolding AreStorable IsStorable
some_bins-AreStorable = (tt, (tt, tt))

some_args-AreArguments : AreArguments some_args
unfolding AreArguments IsPackable
some_args-AreArguments = (tt, tt)

int_key-IsKeyValue : IsKeyValue (Value.int (negsuc 4))
unfolding IsKeyValue
int_key-IsKeyValue = tt

set_write-Builds_example :
    set_write write_policy OperationType.write a_key some_bins a_buffer
    ≡ built a_buffer (policy_head write_policy 1 (key_count a_key true + filter_count a_filter) 2) (
        key_fields a_key true
        ++ (filter_field a_filter ++ bin_operations OperationType.write some_bins))
set_write-Builds_example =
    set_write-Builds write_policy OperationType.write a_key some_bins a_key-IsKey a_filter-IsFilter
      some_bins-AreStorable a_buffer

set_delete-Builds_example :
    set_delete write_policy a_key a_buffer
    ≡ built a_buffer
        (policy_head write_policy 3 (key_count a_key false + filter_count a_filter) 0)
        (key_fields a_key false ++ filter_field a_filter)
set_delete-Builds_example =
    set_delete-Builds write_policy a_key a_key-IsKey_bare a_filter-IsFilter a_buffer

set_touch-Builds_example :
    set_touch write_policy a_key a_buffer
    ≡ built a_buffer
        (policy_head write_policy 1 (key_count a_key true + filter_count a_filter) 1)
        (key_fields a_key true ++ (filter_field a_filter ++ bare_operation OperationType.touch))
set_touch-Builds_example =
    set_touch-Builds write_policy a_key a_key-IsKey a_filter-IsFilter a_buffer

set_udf-Builds_example :
    set_udf write_policy a_key (112 ∷ []) (102 ∷ 110 ∷ []) some_args a_buffer
    ≡ built a_buffer
        (bare_head
          (consistent ConsistencyLevel.consistency_all 0)
          1
          (key_count a_key true + 3 + filter_count a_filter)
          0)
        (key_fields a_key true
          ++ (filter_field a_filter ++ udf_fields (112 ∷ []) (102 ∷ 110 ∷ []) some_args))
set_udf-Builds_example =
    set_udf-Builds write_policy a_key (112 ∷ []) (102 ∷ 110 ∷ []) some_args a_key-IsKey
      a_filter-IsFilter some_args-AreArguments a_buffer

set_exists-Builds_example :
    set_exists write_policy a_key a_buffer
    ≡ built a_buffer
        (bare_head
          (consistent ConsistencyLevel.consistency_all 33)
          0
          (key_count a_key false + filter_count a_filter)
          0)
        (key_fields a_key false ++ filter_field a_filter)
set_exists-Builds_example =
    set_exists-Builds write_policy a_key a_key-IsKey_bare a_filter-IsFilter a_buffer

set_read-Builds_example :
    set_read read_policy a_key (Bins.names ((97 ∷ []) ∷ [])) a_buffer
    ≡ read_message read_policy a_key (Bins.names ((97 ∷ []) ∷ [])) a_buffer
set_read-Builds_example =
    set_read-Builds read_policy a_key (Bins.names ((97 ∷ []) ∷ [])) a_key-IsKey_bare
      a_filter-IsFilter a_buffer

new-IsKey_example :
    (key : Key) × (Key.new (110 ∷ []) (115 ∷ []) (Value.int (negsuc 4)) ≡ ok key)
    × (key.namespace ≡ 110 ∷ [])
    × (key.set_name ≡ 115 ∷ [])
    × (key.user_key ≡ some (Value.int (negsuc 4)))
    × (key.digest ≡ by_padding.hash ((115 ∷ []) ++ hashed_key (Value.int (negsuc 4))))
    × ((send_key : Bool) → IsKey key send_key)
new-IsKey_example = new-IsKey (110 ∷ []) (115 ∷ []) (Value.int (negsuc 4)) int_key-IsKeyValue
