-- ===== src/Buffer/Writes.antt =====
-- commands/buffer.rs: `write_u8` to `write_geo`. A write that does not fit the vector panics.
use aerospike_client_rust.Base.{
  ℕ, ◌+◌, ◌^◌, Bool, List, [], ◌∷◌, length, set, overwrite, ltb, leb, if◌then◌else◌, ℤ, pos,
  as_unsigned,
}
use aerospike_client_rust.Outcome.{ok, panic, pure, ◌>>◌}
use aerospike_client_rust.Buffer.{M}
use aerospike_client_rust.Buffer.Endian.{Endian}

unfoldable pub write_u8 : ℕ → M ℕ
write_u8 val b =
    if ltb b.data_offset (length b.data_buffer)
    then ok (
      1,
      record b {
        data_buffer = set b.data_buffer b.data_offset val;
        data_offset = b.data_offset + 1;
      },
    )
    else panic

unfoldable pub write_i8 : ℤ → M ℕ
write_i8 val = write_u8 (as_unsigned (2 ^ 8) val)

-- `&mut data_buffer[o..o + n]` given to the crate, which fills it, and `data_offset += n`.
unfoldable pub fill : List ℕ → ℕ → M ℕ
fill bs n b =
    if leb (b.data_offset + n) (length b.data_buffer)
    then ok (
      n,
      record b {
        data_buffer = overwrite b.data_buffer b.data_offset bs;
        data_offset = b.data_offset + n;
      },
    )
    else panic

module _ ⦃endian : Endian⦄ where
  unfoldable pub write_u16 : ℕ → M ℕ
  write_u16 val = fill (endian.be16 val) 2

  unfoldable pub write_u16_little_endian : ℕ → M ℕ
  write_u16_little_endian val = fill (endian.le16 val) 2

  unfoldable pub write_u32 : ℕ → M ℕ
  write_u32 val = fill (endian.be32 val) 4

  unfoldable pub write_u64 : ℕ → M ℕ
  write_u64 val = fill (endian.be64 val) 8

  unfoldable pub write_i16 : ℤ → M ℕ
  write_i16 val = write_u16 (as_unsigned (2 ^ 16) val)

  unfoldable pub write_i32 : ℤ → M ℕ
  write_i32 val = write_u32 (as_unsigned (2 ^ 32) val)

  unfoldable pub write_i64 : ℤ → M ℕ
  write_i64 val = write_u64 (as_unsigned (2 ^ 64) val)

  -- A float is its bit pattern, which the crate writes as the integer of that width.
  unfoldable pub write_f32 : ℕ → M ℕ
  write_f32 bits = fill (endian.be32 bits) 4

  unfoldable pub write_f64 : ℕ → M ℕ
  write_f64 bits = fill (endian.be64 bits) 8

unfoldable pub write_bool : Bool → M ℕ
write_bool val = write_i8 (if val then pos 1 else pos 0)

-- `for b in bytes { self.write_u8(*b)?; }`
unfoldable pub write_each : List ℕ → M (Unit {0})
write_each [] = pure tt
write_each (x ∷ xs) = do write_u8 x; write_each xs

unfoldable pub write_bytes : List ℕ → M ℕ
write_bytes bytes = do write_each bytes; pure (length bytes)

-- A `str` is the list of its bytes.
unfoldable pub write_str : List ℕ → M ℕ
write_str val = write_bytes val

unfoldable pub write_geo : List ℕ → M ℕ
write_geo value = do write_u8 0; write_u8 0; write_u8 0; write_bytes value; pure (3 + length value)
