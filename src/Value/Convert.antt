-- ===== src/Value/Convert.antt =====
-- value.rs: the conversions into and out of values, and what a hash map needs of its keys.
use aerospike_client_rust.Base.{
  ℕ, ◌%◌, ◌^◌, Bool, true, false, ◌&&◌, ltb, if◌then◌else◌, ℤ, as_signed,
}
use mathlib.Core.Logic.{ite}
use aerospike_client_rust.Outcome.{Outcome, ok, panic}
use aerospike_client_rust.Value.{
  FloatValue, f32, f64, Value, int, uint, list, hash_map, ordered_map, Values, no_values, values,
  Entries, no_entries, entry, Value-discrete,
}

-- `is_nan` on the pattern of a float: all exponent bits, and a fraction that is not 0.
unfoldable pub is_nan64 : ℕ → Bool
is_nan64 bits = ltb 0x7ff0_0000_0000_0000 (bits % 2 ^ 63)

unfoldable pub is_nan32 : ℕ → Bool
is_nan32 bits = ltb 0x7f80_0000 (bits % 2 ^ 31)

-- `FloatValue::from`: every NaN becomes `f64::NAN` or `f32::NAN`.
unfoldable pub from_f64 : ℕ → FloatValue
from_f64 bits = if is_nan64 bits then f64 0x7ff8_0000_0000_0000 else f64 bits

unfoldable pub from_f32 : ℕ → FloatValue
from_f32 bits = if is_nan32 bits then f32 0x7fc0_0000 else f32 bits

-- `f64::from(&FloatValue)`
unfoldable pub to_f64 : FloatValue → Outcome ℕ
to_f64 (f32 bits) = panic
to_f64 (f64 bits) = ok bits

-- `f32::from(&FloatValue)`: a double is cut to its low 32 bits.
unfoldable pub to_f32 : FloatValue → ℕ
to_f32 (f32 bits) = bits
to_f32 (f64 bits) = bits % 2 ^ 32

-- `i64::from(Value)`
unfoldable pub to_i64 : Value → Outcome ℤ
to_i64 (int val) = ok val
to_i64 (uint val) = ok (as_signed (2 ^ 63) (val % 2 ^ 64))
to_i64 _ = panic

-- `Hash for Value` panics on maps, at any depth of lists.
unfoldable mutual
  pub is_hashable : Value → Bool
  is_hashable (list vs) = are_hashable vs
  is_hashable (hash_map es) = false
  is_hashable (ordered_map es) = false
  is_hashable _ = true

  pub are_hashable : Values → Bool
  are_hashable no_values = true
  are_hashable (values v vs) = is_hashable v && are_hashable vs

-- The value of an equal key is replaced; a new key comes last.
unfoldable pub put : Value → Value → Entries → Entries
put key val no_entries = entry key val no_entries
put key val (entry k v es) =
    ite (Value-discrete k key) (entry k val es) (entry k v (put key val es))

-- `HashMap::insert`, which hashes the key first.
unfoldable pub insert : Value → Value → Entries → Outcome Entries
insert key val es = if is_hashable key then ok (put key val es) else panic
