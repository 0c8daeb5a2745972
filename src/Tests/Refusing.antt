-- ===== src/Tests/Refusing.antt =====
-- Values that are refused, and a size that is.
use aerospike_client_rust.Base.{◌≡◌, ◌⊎◌, ◌<◌, ◌≤◌, none, length}
use aerospike_client_rust.Outcome.{ok, err, panic, invalid_buffer_size}
use aerospike_client_rust.Buffer.{Buffer}
use aerospike_client_rust.Buffer.Sizing.{max_buffer_size, resize_buffer}
use aerospike_client_rust.Buffer.Bounded.{resize_buffer-bounds}
use aerospike_client_rust.Value.{Value, no_values, values, no_entries}
use aerospike_client_rust.Msgpack.Encoder.{pack_value}
use aerospike_client_rust.Msgpack.Format.{IsPackable, encode}
use aerospike_client_rust.Msgpack.Packed.Refused.{pack_value-refused}
use aerospike_client_rust.Tests.Crates.{by_division}
use aerospike_client_rust.Tests.Sending.{a_buffer}

abbrev holds_ordered_map : Value
holds_ordered_map = Value.list (values Value.nil (values (Value.ordered_map no_entries) no_values))

pack_value-refused_example :
    (IsPackable holds_ordered_map
      × (pack_value holds_ordered_map none ≡ ok (length (encode holds_ordered_map), none)))
    ⊎ ((IsPackable holds_ordered_map → ⊥) × (pack_value holds_ordered_map none ≡ panic))
pack_value-refused_example = pack_value-refused holds_ordered_map

resize_buffer-bounds_example :
    ((max_buffer_size < 2000000)
      × (resize_buffer 2000000 a_buffer ≡ err (invalid_buffer_size 2000000)))
    ⊎ ((2000000 ≤ max_buffer_size)
        × (b' : Buffer) × (resize_buffer 2000000 a_buffer ≡ ok (tt, b'))
        × (length b'.data_buffer ≡ 2000000)
        × (b'.data_offset ≡ a_buffer.data_offset))
resize_buffer-bounds_example = resize_buffer-bounds 2000000 a_buffer
