-- ===== src/Msgpack/Encoder.antt =====
-- msgpack/encoder.rs. Each packer runs with a buffer or without; the sizes of its parts are summed
-- by `+?`, in the order of the source.
use aerospike_client_rust.Base.{
  ℕ, ◌+◌, ◌-◌, ◌%◌, ◌^◌, Bool, ◌&&◌, List, length, ltb, leb, if◌then◌else◌, bit_or, ℤ, pos, negsuc,
  ltb_ℤ, leb_ℤ, as_unsigned, as_signed, as_i16, as_i32,
}
use aerospike_client_rust.Outcome.{panic, pure, ◌>>◌}
use aerospike_client_rust.Buffer.Endian.{Endian}
use aerospike_client_rust.Buffer.Writes.{
  write_u8, write_u16, write_i16, write_i32, write_i64, write_u64, write_f32, write_f64,
  write_bytes, write_str,
}
use aerospike_client_rust.Value.{
  FloatValue, Value, Values, no_values, values, Entries, no_entries, entry, length_values,
  length_entries,
}
use aerospike_client_rust.Commands.ParticleType
use aerospike_client_rust.Commands.ParticleType.{ParticleType}
use aerospike_client_rust.Msgpack.Pack.{Pack, emit, ◌+?◌}

unfoldable pub pack_half_byte : ℕ → Pack
pack_half_byte value = emit (write_u8 value) 1

unfoldable pub pack_byte : ℕ → ℕ → Pack
pack_byte marker value = emit (do write_u8 marker; write_u8 value) 2

unfoldable pub pack_nil : Pack
pack_nil = emit (write_u8 0xc0) 1

unfoldable pub pack_bool : Bool → Pack
pack_bool value = emit (if value then write_u8 0xc3 else write_u8 0xc2) 1

module _ ⦃endian : Endian⦄ where
  unfoldable pub pack_raw_u16 : ℕ → Pack
  pack_raw_u16 value = emit (write_u16 value) 2

  unfoldable pub pack_i16 : ℕ → ℤ → Pack
  pack_i16 marker value = emit (do write_u8 marker; write_i16 value) 3

  unfoldable pub pack_i32 : ℕ → ℤ → Pack
  pack_i32 marker value = emit (do write_u8 marker; write_i32 value) 5

  unfoldable pub pack_i64 : ℕ → ℤ → Pack
  pack_i64 marker value = emit (do write_u8 marker; write_i64 value) 9

  unfoldable pub pack_f32 : ℕ → Pack
  pack_f32 bits = emit (do write_u8 0xca; write_f32 bits) 5

  unfoldable pub pack_f64 : ℕ → Pack
  pack_f64 bits = emit (do write_u8 0xcb; write_f64 bits) 9

  unfoldable pub pack_map_begin : ℕ → Pack
  pack_map_begin length =
      if ltb length 16
      then pack_half_byte (bit_or 0x80 (length % 2 ^ 8))
      else if leb 16 length && ltb length (2 ^ 16)
      then pack_i16 0xde (as_i16 length)
      else pack_i32 0xdf (as_i32 length)

  unfoldable pub pack_array_begin : ℕ → Pack
  pack_array_begin length =
      if ltb length 16
      then pack_half_byte (bit_or 0x90 (length % 2 ^ 8))
      else if leb 16 length && ltb length (2 ^ 16)
      then pack_i16 0xdc (as_i16 length)
      else pack_i32 0xdd (as_i32 length)

  unfoldable pub pack_byte_array_begin : ℕ → Pack
  pack_byte_array_begin length =
      if ltb length 32
      then pack_half_byte (bit_or 0xa0 (length % 2 ^ 8))
      else if leb 32 length && ltb length (2 ^ 16)
      then pack_i16 0xda (as_i16 length)
      else pack_i32 0xdb (as_i32 length)

  -- `size` starts as the length of the payload, and the header's size is added to it.
  unfoldable pub pack_blob : List ℕ → Pack
  pack_blob value =
      pack_byte_array_begin (length value + 1)
      +? emit (do write_u8 (ParticleType.code ParticleType.blob); write_bytes value)
          (length value + 1)

  unfoldable pub pack_string : List ℕ → Pack
  pack_string value =
      pack_byte_array_begin (length value + 1)
      +? emit (do write_u8 (ParticleType.code ParticleType.string); write_str value)
          (length value + 1)

  unfoldable pub pack_raw_string : List ℕ → Pack
  pack_raw_string value =
      pack_byte_array_begin (length value) +? emit (write_str value) (length value)

  unfoldable pub pack_geo_json : List ℕ → Pack
  pack_geo_json value =
      pack_byte_array_begin (length value + 1)
      +? emit (do write_u8 (ParticleType.code ParticleType.geojson); write_str value)
          (length value + 1)

  -- The arms of the `match` in order, each with its guard. The last arm is `unreachable!`.
  unfoldable pub pack_integer : ℤ → Pack
  pack_integer val =
      if leb_ℤ (pos 0) val && ltb_ℤ val (pos 128)
      then pack_half_byte (as_unsigned (2 ^ 8) val)
      else if leb_ℤ (pos 128) val && ltb_ℤ val (pos 127)
      then pack_byte 0xcc (as_unsigned (2 ^ 8) val)
      else if leb_ℤ (pos 127) val && ltb_ℤ val (pos 32767)
      then pack_i16 0xcd (as_signed (2 ^ 15) (as_unsigned (2 ^ 16) val))
      else if leb_ℤ (pos 32767) val && ltb_ℤ val (pos 2147483647)
      then pack_i32 0xce (as_signed (2 ^ 31) (as_unsigned (2 ^ 32) val))
      else if leb_ℤ (pos 2147483647) val
      then pack_i64 0xd3 val
      else if leb_ℤ (negsuc 31) val && ltb_ℤ val (pos 0)
      then pack_half_byte (bit_or 0xe0 ((as_unsigned (2 ^ 8) val + 32) % 2 ^ 8))
      else if leb_ℤ (negsuc 127) val && ltb_ℤ val (negsuc 31)
      then pack_byte 0xd0 (as_unsigned (2 ^ 8) val)
      else if leb_ℤ (negsuc 32767) val && ltb_ℤ val (negsuc 127)
      then pack_i16 0xd1 (as_signed (2 ^ 15) (as_unsigned (2 ^ 16) val))
      else if leb_ℤ (negsuc 2147483647) val && ltb_ℤ val (negsuc 32767)
      then pack_i32 0xd2 (as_signed (2 ^ 31) (as_unsigned (2 ^ 32) val))
      else if ltb_ℤ val (negsuc 2147483647)
      then pack_i64 0xd3 val
      else λ b. panic

  unfoldable pub pack_u64 : ℕ → Pack
  pack_u64 value =
      if leb value (2 ^ 63 - 1)
      then pack_integer (as_signed (2 ^ 63) value)
      else emit (do write_u8 0xcf; write_u64 value) 9

  unfoldable pub pack_float : FloatValue → Pack
  pack_float (FloatValue.f64 bits) = pack_f64 bits
  pack_float (FloatValue.f32 bits) = pack_f32 bits

  -- `pack_value`, with the loops of `pack_array` and `pack_map` over the parts of a value.
  unfoldable mutual
    pub pack_value : Value → Pack
    pack_value Value.nil = pack_nil
    pack_value (Value.int val) = pack_integer val
    pack_value (Value.uint val) = pack_u64 val
    pack_value (Value.bool val) = pack_bool val
    pack_value (Value.string val) = pack_string val
    pack_value (Value.float val) = pack_float val
    pack_value (Value.blob val) = pack_blob val
    pack_value (Value.hll val) = pack_blob val
    pack_value (Value.list val) = pack_array_begin (length_values val) +? pack_each val
    pack_value (Value.hash_map val) = pack_map_begin (length_entries val) +? pack_each_entry val
    pack_value (Value.ordered_map val) = λ b. panic
    pack_value (Value.geo_json val) = pack_geo_json val

    pub pack_each : Values → Pack
    pack_each no_values = pure 0
    pack_each (values val vs) = pack_value val +? pack_each vs

    pub pack_each_entry : Entries → Pack
    pack_each_entry no_entries = pure 0
    pack_each_entry (entry key val es) = pack_value key +? (pack_value val +? pack_each_entry es)

  unfoldable pub pack_array : Values → Pack
  pack_array vs = pack_array_begin (length_values vs) +? pack_each vs

  unfoldable pub pack_map : Entries → Pack
  pack_map map = pack_map_begin (length_entries map) +? pack_each_entry map

  unfoldable pub pack_empty_args_array : Pack
  pack_empty_args_array = pack_array_begin 0
