-- ===== src/Msgpack/Decoder.antt =====
-- msgpack/decoder.rs. The recursion of `unpack_value` takes fuel: each nested value stands behind
-- a byte of its own, so the length of the buffer is enough. The readers of lists and maps are
-- given the reader of their parts. `1 + length` of an extension is checked for overflow.
use aerospike_client_rust.Base.{
  ℕ, zero, suc, ◌+◌, ◌-◌, ◌^◌, Bool, true, false, ◌&&◌, ◌||◌, none, length, ltb, leb, ◌==◌,
  if◌then◌else◌, bit_and, pos, sub_ℕ,
}
use aerospike_client_rust.Outcome.{
  ok, err, panic, exhausted, pure, ◌>>=◌, ◌>>◌, lift, unknown_blob_header, bad_response,
}
use aerospike_client_rust.Buffer.{M}
use aerospike_client_rust.Buffer.Endian.{Endian}
use aerospike_client_rust.Buffer.Reads.{
  skip_bytes, peek, read_u8, read_i8, read_u16, read_i16, read_u32, read_i32, read_u64, read_i64,
  read_f32, read_f64, read_str, read_blob,
}
use aerospike_client_rust.Value.{Value, Values, no_values, values, Entries, no_entries}
use aerospike_client_rust.Value.Convert.{from_f32, from_f64, insert}
use aerospike_client_rust.Commands.ParticleType.{ParticleType}
use aerospike_client_rust.Commands.ParticleType

unfoldable pub is_ext : ℕ → Bool
is_ext byte =
    byte == 0xc7
    || (byte == 0xc8
        || (byte == 0xc9
            || (byte == 0xd4
                || (byte == 0xd5 || (byte == 0xd6 || (byte == 0xd7 || byte == 0xd8))))))

-- `let _ = m;`: an error is dropped. An extension is skipped without one.
unfoldable pub ignore : M Value → M (Unit {0})
ignore m b = elim (m b) [
  | ok (_, b') ↦ ok (tt, b')
  | err e ↦ ok (tt, b)
  | panic ↦ panic
  | exhausted ↦ exhausted
]

-- `count > 0 && is_ext(buf.peek())`
unfoldable pub starts_with_ext : ℕ → M Bool
starts_with_ext zero = pure false
starts_with_ext (suc n) = do byte ← peek; pure (is_ext byte)

-- `for _ in 0..count { list.push(unpack_value(buf)?); }`
unfoldable pub unpack_elements : M Value → ℕ → M Values
unpack_elements unpack zero = pure no_values
unpack_elements unpack (suc count) = do
  val ← unpack
  rest ← unpack_elements unpack count
  pure (values val rest)

unfoldable pub unpack_list : M Value → ℕ → M Value
unpack_list unpack count = do
  ext ← starts_with_ext count
  (if ext then ignore unpack else pure tt)
  list ← unpack_elements unpack (if ext then count - 1 else count)
  pure (Value.list list)

-- `for _ in 0..count { map.insert(key, val); }` on the map so far.
unfoldable pub unpack_entries : M Value → ℕ → Entries → M Entries
unpack_entries unpack zero map = pure map
unpack_entries unpack (suc count) map = do
  key ← unpack
  val ← unpack
  more ← lift (insert key val map)
  unpack_entries unpack count more

unfoldable pub unpack_map : M Value → ℕ → M Value
unpack_map unpack count = do
  ext ← starts_with_ext count
  (if ext then ignore unpack >> ignore unpack else pure tt)
  map ← unpack_entries unpack (if ext then count - 1 else count) no_entries
  pure (Value.hash_map map)

-- The arms on the particle type, for a payload of `count` bytes behind the type's code.
unfoldable pub unpack_payload : ℕ → ℕ → ParticleType → M Value
unpack_payload vtype count ParticleType.string = do val ← read_str count; pure (Value.string val)
unpack_payload vtype count ParticleType.blob = do val ← read_blob count; pure (Value.blob val)
unpack_payload vtype count ParticleType.geojson = do val ← read_str count; pure (Value.geo_json val)
unpack_payload vtype count _ = λ b. err (unknown_blob_header vtype)

-- `count - 1` of a length of 0 overflows.
unfoldable pub unpack_blob : ℕ → M Value
unpack_blob count = do
  vtype ← read_u8 none
  (if count == 0 then (λ b. panic) else pure tt)
  type ← lift (ParticleType.from vtype)
  unpack_payload vtype (count - 1) type

-- `let count = 1 + read?; buf.skip_bytes(count); Ok(Value::Nil)`, the sum in a word below `max`.
unfoldable pub skip_ext : ℕ → M ℕ → M Value
skip_ext max read = do
  n ← read
  (if ltb (1 + n) max then skip_bytes (1 + n) else λ b. panic)
  pure Value.nil

unfoldable pub skip_fixed_ext : ℕ → M Value
skip_fixed_ext n = do skip_bytes (1 + n); pure Value.nil

module _ ⦃endian : Endian⦄ where
  unfoldable pub unpack_type : M Value → ℕ → M Value
  unpack_type unpack t =
      if leb t 0x7f
      then pure (Value.int (pos t))
      else if leb t 0x8f
      then unpack_map unpack (bit_and t 0x0f)
      else if leb t 0x9f
      then unpack_list unpack (bit_and t 0x0f)
      else if leb t 0xbf
      then unpack_blob (bit_and t 0x1f)
      else if t == 0xc0
      then pure Value.nil
      else if t == 0xc2
      then pure (Value.bool false)
      else if t == 0xc3
      then pure (Value.bool true)
      else if t == 0xc4 || t == 0xd9
      then (do count ← read_u8 none; unpack_blob count)
      else if t == 0xc5 || t == 0xda
      then (do count ← read_u16 none; unpack_blob count)
      else if t == 0xc6 || t == 0xdb
      then (do count ← read_u32 none; unpack_blob count)
      else if t == 0xc7
      then skip_ext (2 ^ 8) (read_u8 none)
      else if t == 0xc8
      then skip_ext (2 ^ 16) (read_u16 none)
      else if t == 0xc9
      then skip_ext (2 ^ 32) (read_u32 none)
      else if t == 0xca
      then (do x ← read_f32 none; pure (Value.float (from_f32 x)))
      else if t == 0xcb
      then (do x ← read_f64 none; pure (Value.float (from_f64 x)))
      else if t == 0xcc
      then (do x ← read_u8 none; pure (Value.int (pos x)))
      else if t == 0xcd
      then (do x ← read_u16 none; pure (Value.int (pos x)))
      else if t == 0xce
      then (do x ← read_u32 none; pure (Value.int (pos x)))
      else if t == 0xcf
      then (do x ← read_u64 none; pure (Value.uint x))
      else if t == 0xd0
      then (do x ← read_i8 none; pure (Value.int x))
      else if t == 0xd1
      then (do x ← read_i16 none; pure (Value.int x))
      else if t == 0xd2
      then (do x ← read_i32 none; pure (Value.int x))
      else if t == 0xd3
      then (do x ← read_i64 none; pure (Value.int x))
      else if t == 0xd4
      then skip_fixed_ext 1
      else if t == 0xd5
      then skip_fixed_ext 2
      else if t == 0xd6
      then skip_fixed_ext 4
      else if t == 0xd7
      then skip_fixed_ext 8
      else if t == 0xd8
      then skip_fixed_ext 16
      else if t == 0xdc
      then (do count ← read_u16 none; unpack_list unpack count)
      else if t == 0xdd
      then (do count ← read_u32 none; unpack_list unpack count)
      else if t == 0xde
      then (do count ← read_u16 none; unpack_map unpack count)
      else if t == 0xdf
      then (do count ← read_u32 none; unpack_map unpack count)
      else if leb 0xe0 t && leb t 0xff
      then pure (Value.int (sub_ℕ t (0xe0 + 32)))
      else λ b. err (bad_response t)

  unfoldable pub unpack_one : M Value → M Value
  unpack_one unpack = do obj_type ← read_u8 none; unpack_type unpack obj_type

  unfoldable pub unpack_value : ℕ → M Value
  unpack_value zero = λ b. exhausted
  unpack_value (suc fuel) = unpack_one (unpack_value fuel)

  -- `ltype` and the count behind it; another marker is `unreachable!`.
  unfoldable pub read_count : ℕ → ℕ → ℕ → ℕ → M ℕ
  read_count base wide16 wide32 ltype =
      if leb base ltype && leb ltype (base + 0x0f)
      then pure (bit_and ltype 0x0f)
      else if ltype == wide16
      then read_u16 none
      else if ltype == wide32
      then read_u32 none
      else λ b. panic

  unfoldable pub unpack_value_list : M Value
  unpack_value_list buf =
      if length buf.data_buffer == 0
      then ok (Value.list no_values, buf)
      else (do
        ltype ← read_u8 none
        count ← read_count 0x90 0xdc 0xdd ltype
        unpack_list (unpack_value (length buf.data_buffer)) count)
          buf

  unfoldable pub unpack_value_map : M Value
  unpack_value_map buf =
      if length buf.data_buffer == 0
      then ok (Value.hash_map no_entries, buf)
      else (do
        ltype ← read_u8 none
        count ← read_count 0x80 0xde 0xdf ltype
        unpack_map (unpack_value (length buf.data_buffer)) count)
          buf
