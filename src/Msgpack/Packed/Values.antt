-- ===== src/Msgpack/Packed/Values.antt =====
-- msgpack/encoder.rs: payloads, lists, maps and whole values against the reference.
use aerospike_client_rust.Base.{ℕ, suc, ◌+◌, refl, ap, true, false, List, ◌++◌, length, arith}
use aerospike_client_rust.Outcome.{◌>>◌}
use aerospike_client_rust.Buffer.{M}
use aerospike_client_rust.Buffer.Endian.{Endian}
use aerospike_client_rust.Buffer.Writes.{write_u8}
use aerospike_client_rust.Buffer.Building
use aerospike_client_rust.Buffer.Building.{Writes}
use aerospike_client_rust.Commands.ParticleType
use aerospike_client_rust.Value.{
  FloatValue, Value, Values, no_values, values, Entries, no_entries, entry, length_values,
  length_entries,
}
use aerospike_client_rust.Msgpack.Pack.{emit, ◌+?◌, Packs, Packs-pure, Packs-emit, Packs-+?}
use aerospike_client_rust.Msgpack.Encoder.{
  pack_nil, pack_f32, pack_f64, pack_byte_array_begin, pack_blob, pack_string, pack_raw_string,
  pack_geo_json, pack_float, pack_value, pack_each, pack_each_entry, pack_array, pack_map,
  pack_empty_args_array,
}
use aerospike_client_rust.Msgpack.Format.{
  array_header, map_header, bytes_header, encode_float, encode_bytes, encode, encode_values,
  encode_entries, IsPackable, ArePackable, EntriesPackable,
}
use aerospike_client_rust.Msgpack.Packed.Words.{
  Packs-marked, Packs-bool, Packs-array_begin, Packs-map_begin, Packs-byte_array_begin,
}
use aerospike_client_rust.Msgpack.Packed.Integers.{Packs-integer, Packs-u64}

module _ ⦃endian : Endian⦄ where
  open endian use {be16, be32, be64}

  -- A payload behind its header and the code of its type.
  Packs-payload :
      {m : M ℕ} (code : ℕ) (bs : List ℕ)
      → Writes m (length bs) bs
      → Packs
          (pack_byte_array_begin (length bs + 1) +? emit (write_u8 code >> m) (length bs + 1))
          (encode_bytes code bs)
  unfolding encode_bytes
  Packs-payload code bs w =
      Packs-+? (Packs-byte_array_begin (length bs + 1))
        (Packs-marked code (length bs + 1) w (omega arith))

  pub Packs-blob : (bs : List ℕ) → Packs (pack_blob bs) (encode_bytes 4 bs)
  unfolding pack_blob ParticleType.code
  Packs-blob bs = Packs-payload 4 bs (Building.Writes-bytes bs)

  pub Packs-string : (s : List ℕ) → Packs (pack_string s) (encode_bytes 3 s)
  unfolding pack_string ParticleType.code
  Packs-string s = Packs-payload 3 s (Building.Writes-str s)

  pub Packs-geo_json : (s : List ℕ) → Packs (pack_geo_json s) (encode_bytes 23 s)
  unfolding pack_geo_json ParticleType.code
  Packs-geo_json s = Packs-payload 23 s (Building.Writes-str s)

  pub Packs-raw_string : (s : List ℕ) → Packs (pack_raw_string s) (bytes_header (length s) ++ s)
  unfolding pack_raw_string
  Packs-raw_string s =
      Packs-+? (Packs-byte_array_begin (length s)) (Packs-emit _ (Building.Writes-str s) refl)

  pub Packs-float : (f : FloatValue) → Packs (pack_float f) (encode_float f)
  unfolding pack_float encode_float pack_f64 pack_f32
  Packs-float (FloatValue.f64 bits) =
      Packs-marked 0xcb 9 (Building.Writes-f64 bits) (ap suc (endian.length-be64 bits))
  Packs-float (FloatValue.f32 bits) =
      Packs-marked 0xca 5 (Building.Writes-f32 bits) (ap suc (endian.length-be32 bits))

  mutual
    unfolding pack_value encode IsPackable pack_nil

    value-Packs : (v : Value) → IsPackable v → Packs (pack_value v) (encode v)
    value-Packs Value.nil h = Packs-emit 1 (Building.Writes-u8 0xc0) refl
    value-Packs (Value.bool true) h = Packs-bool true
    value-Packs (Value.bool false) h = Packs-bool false
    value-Packs (Value.int z) h = Packs-integer z
    value-Packs (Value.uint n) h = Packs-u64 n
    value-Packs (Value.float f) h = Packs-float f
    value-Packs (Value.string s) h = Packs-string s
    value-Packs (Value.blob bs) h = Packs-blob bs
    value-Packs (Value.hll bs) h = Packs-blob bs
    value-Packs (Value.geo_json s) h = Packs-geo_json s
    value-Packs (Value.list vs) h = Packs-+? (Packs-array_begin _) (values_pack vs h)
    value-Packs (Value.hash_map es) h = Packs-+? (Packs-map_begin _) (entries_pack es h)
    value-Packs (Value.ordered_map es) h = absurd h

    values_pack : (vs : Values) → ArePackable vs → Packs (pack_each vs) (encode_values vs)
    values_pack no_values h = Packs-pure
    values_pack (values v vs) h = Packs-+? (value-Packs v h.0) (values_pack vs h.1)

    entries_pack :
        (es : Entries) → EntriesPackable es → Packs (pack_each_entry es) (encode_entries es)
    entries_pack no_entries h = Packs-pure
    entries_pack (entry k v es) h =
        Packs-+? (value-Packs k h.0) (Packs-+? (value-Packs v h.1) (entries_pack es h.2))

  -- Both runs of `pack_value` agree with the reference on every value without an ordered map:
  -- the dry run counts the bytes of `encode v`, and the run on a buffer with that much room
  -- writes them at the offset, moves the offset behind them and changes nothing else.
  pub pack_value-Packs : (v : Value) → IsPackable v → Packs (pack_value v) (encode v)
  pack_value-Packs v h = value-Packs v h

  pub pack_array-Packs :
      (vs : Values)
      → ArePackable vs
      → Packs (pack_array vs) (array_header (length_values vs) ++ encode_values vs)
  unfolding pack_array
  pack_array-Packs vs h = Packs-+? (Packs-array_begin _) (values_pack vs h)

  pub pack_map-Packs :
      (es : Entries)
      → EntriesPackable es
      → Packs (pack_map es) (map_header (length_entries es) ++ encode_entries es)
  unfolding pack_map
  pack_map-Packs es h = Packs-+? (Packs-map_begin _) (entries_pack es h)

  pub pack_empty_args_array-Packs : Packs pack_empty_args_array (array_header 0)
  unfolding pack_empty_args_array
  pack_empty_args_array-Packs = Packs-array_begin 0
