-- ===== src/Expressions/Made/Values.antt =====
-- expressions/mod.rs: what the builders of bins, metadata and values return.
use aerospike_client_rust.Base.{ℕ, ℤ, Bool, List}
use aerospike_client_rust.Value.{Values, Entries}
use aerospike_client_rust.Msgpack.Format.{IsPackable, ArePackable, EntriesPackable}
use aerospike_client_rust.Expressions.ExpType.{ExpType}
use aerospike_client_rust.Expressions.Filter.{FilterExpression, exp_list, new}
use aerospike_client_rust.Expressions.Values
use aerospike_client_rust.Expressions.WellFormed.{
  IsGiven, IsPackableValue, HasShape, IsCommand, IsExpression, AreExpressions, IsBin,
}

pub data IsValue : FilterExpression → Type 0 where
  key : (exp_type : ExpType) → IsValue (Values.key exp_type)
  key_exists : IsValue (Values.key_exists)
  int_bin : (name : List ℕ) → IsValue (Values.int_bin name)
  string_bin : (name : List ℕ) → IsValue (Values.string_bin name)
  blob_bin : (name : List ℕ) → IsValue (Values.blob_bin name)
  float_bin : (name : List ℕ) → IsValue (Values.float_bin name)
  geo_bin : (name : List ℕ) → IsValue (Values.geo_bin name)
  list_bin : (name : List ℕ) → IsValue (Values.list_bin name)
  map_bin : (name : List ℕ) → IsValue (Values.map_bin name)
  hll_bin : (name : List ℕ) → IsValue (Values.hll_bin name)
  bin_type : (name : List ℕ) → IsValue (Values.bin_type name)
  set_name : IsValue (Values.set_name)
  device_size : IsValue (Values.device_size)
  last_update : IsValue (Values.last_update)
  since_update : IsValue (Values.since_update)
  void_time : IsValue (Values.void_time)
  ttl : IsValue (Values.ttl)
  is_tombstone : IsValue (Values.is_tombstone)
  digest_modulo : (modulo : ℤ) → IsValue (Values.digest_modulo modulo)
  int_val : (val : ℤ) → IsValue (Values.int_val val)
  bool_val : (val : Bool) → IsValue (Values.bool_val val)
  string_val : (val : List ℕ) → IsValue (Values.string_val val)
  float_val : (val : ℕ) → IsValue (Values.float_val val)
  blob_val : (val : List ℕ) → IsValue (Values.blob_val val)
  list_val : (val : Values) → ArePackable val → IsValue (Values.list_val val)
  map_val : (val : Entries) → EntriesPackable val → IsValue (Values.map_val val)
  geo_val : (val : List ℕ) → IsValue (Values.geo_val val)
  nil : IsValue (Values.nil)
  unknown : IsValue (Values.unknown)

pub value-IsExpression : (e : FilterExpression) → IsValue e → IsExpression e
unfolding Values.key Values.key_exists Values.int_bin Values.string_bin Values.blob_bin
    Values.float_bin Values.geo_bin Values.list_bin Values.map_bin Values.hll_bin Values.bin_type
    Values.set_name Values.device_size Values.last_update Values.since_update Values.void_time
    Values.ttl Values.is_tombstone Values.digest_modulo Values.int_val Values.bool_val
    Values.string_val Values.float_val Values.blob_val Values.list_val Values.map_val Values.geo_val
    Values.nil Values.unknown new exp_list IsExpression IsCommand IsGiven IsPackableValue IsPackable
    HasShape AreExpressions IsBin
value-IsExpression _ (IsValue.key _) = tt
value-IsExpression _ IsValue.key_exists = tt
value-IsExpression _ (IsValue.int_bin _) = (tt, tt)
value-IsExpression _ (IsValue.string_bin _) = (tt, tt)
value-IsExpression _ (IsValue.blob_bin _) = (tt, tt)
value-IsExpression _ (IsValue.float_bin _) = (tt, tt)
value-IsExpression _ (IsValue.geo_bin _) = (tt, tt)
value-IsExpression _ (IsValue.list_bin _) = (tt, tt)
value-IsExpression _ (IsValue.map_bin _) = (tt, tt)
value-IsExpression _ (IsValue.hll_bin _) = (tt, tt)
value-IsExpression _ (IsValue.bin_type _) = tt
value-IsExpression _ IsValue.set_name = tt
value-IsExpression _ IsValue.device_size = tt
value-IsExpression _ IsValue.last_update = tt
value-IsExpression _ IsValue.since_update = tt
value-IsExpression _ IsValue.void_time = tt
value-IsExpression _ IsValue.ttl = tt
value-IsExpression _ IsValue.is_tombstone = tt
value-IsExpression _ (IsValue.digest_modulo _) = tt
value-IsExpression _ (IsValue.int_val _) = tt
value-IsExpression _ (IsValue.bool_val _) = tt
value-IsExpression _ (IsValue.string_val _) = tt
value-IsExpression _ (IsValue.float_val _) = tt
value-IsExpression _ (IsValue.blob_val _) = tt
value-IsExpression _ (IsValue.list_val _ h0) = h0
value-IsExpression _ (IsValue.map_val _ h0) = h0
value-IsExpression _ (IsValue.geo_val _) = tt
value-IsExpression _ IsValue.nil = tt
value-IsExpression _ IsValue.unknown = tt
