-- ===== src/Buffer/Reads.antt =====
-- commands/buffer.rs: `skip` to `read_bool`. A read behind the end of the vector panics.
-- `pos` is the source's optional absolute position; without it the read is at the offset, which
-- it moves.
use aerospike_client_rust.Base.{
  ℕ, zero, suc, ◌+◌, ◌^◌, Bool, true, false, not, ◌&&◌, List, [], ◌∷◌, Option, none, some, length,
  take, drop, get_elem?, leb, ◌==◌, if◌then◌else◌, bit_and, ℤ, as_signed, as_unsigned,
}
use aerospike_client_rust.Outcome.{ok, err, panic, pure, ◌>>=◌, ◌>>◌, invalid_utf8}
use aerospike_client_rust.Buffer.{Buffer, M}
use aerospike_client_rust.Buffer.Endian.{Endian}

abbrev pub advance : Buffer → ℕ → Buffer
advance b n = record b { data_offset = b.data_offset + n }

unfoldable pub skip_bytes : ℕ → M (Unit {0})
skip_bytes count b = ok (tt, advance b count)

-- `skip` does what `skip_bytes` does, and returns a `Result`.
unfoldable pub skip : ℕ → M (Unit {0})
skip count b = ok (tt, advance b count)

-- `data_buffer[pos]`
unfoldable pub index : ℕ → M ℕ
index pos b = elim (get_elem? b.data_buffer pos) [ some x ↦ ok (x, b) | none ↦ panic ]

-- `&data_buffer[pos..pos + len]`
unfoldable pub slice : ℕ → ℕ → M (List ℕ)
slice pos len b =
    if leb (pos + len) (length b.data_buffer)
    then ok (take len (drop pos b.data_buffer), b)
    else panic

unfoldable pub peek : M ℕ
peek b = index b.data_offset b

-- The shape of the reads: at `pos`, or at the offset and over it.
unfoldable pub read_word : (List ℕ → ℕ) → ℕ → Option ℕ → M ℕ
read_word word len (some pos) = do bytes ← slice pos len; pure (word bytes)
read_word word len none = do
  bytes ← (λ b. slice b.data_offset len b)
  skip_bytes len
  pure (word bytes)

unfoldable pub read_u8 : Option ℕ → M ℕ
read_u8 (some pos) = index pos
read_u8 none = do res ← peek; skip_bytes 1; pure res

unfoldable pub read_i8 : Option ℕ → M ℤ
read_i8 pos = do val ← read_u8 pos; pure (as_signed (2 ^ 7) val)

module _ ⦃endian : Endian⦄ where
  unfoldable pub read_u16 : Option ℕ → M ℕ
  read_u16 = read_word endian.from_be16 2

  unfoldable pub read_i16 : Option ℕ → M ℤ
  read_i16 pos = do val ← read_u16 pos; pure (as_signed (2 ^ 15) val)

  unfoldable pub read_u32 : Option ℕ → M ℕ
  read_u32 = read_word endian.from_be32 4

  unfoldable pub read_i32 : Option ℕ → M ℤ
  read_i32 pos = do val ← read_u32 pos; pure (as_signed (2 ^ 31) val)

  unfoldable pub read_u64 : Option ℕ → M ℕ
  read_u64 = read_word endian.from_be64 8

  unfoldable pub read_i64 : Option ℕ → M ℤ
  read_i64 pos = do val ← read_u64 pos; pure (as_signed (2 ^ 63) val)

  -- `size & 0xFFFF_FFFF_FFFF` on the pattern of the signed word.
  unfoldable pub read_msg_size : Option ℕ → M ℕ
  read_msg_size pos = do
    size ← read_i64 pos
    pure (bit_and (as_unsigned (2 ^ 64) size) 0xffff_ffff_ffff)

  -- A float is read as its bit pattern.
  unfoldable pub read_f32 : Option ℕ → M ℕ
  read_f32 = read_word endian.from_be32 4

  unfoldable pub read_f64 : Option ℕ → M ℕ
  read_f64 = read_word endian.from_be64 8

-- What may follow the lead byte of a character: how many bytes, and the range of the first.
unfoldable pub utf8_lead : ℕ → Option (ℕ × ℕ × ℕ)
utf8_lead x =
    if leb x 0x7f
    then some (0, 0x80, 0xbf)
    else if leb 0xc2 x && leb x 0xdf
    then some (1, 0x80, 0xbf)
    else if x == 0xe0
    then some (2, 0xa0, 0xbf)
    else if x == 0xed
    then some (2, 0x80, 0x9f)
    else if leb 0xe1 x && leb x 0xef
    then some (2, 0x80, 0xbf)
    else if x == 0xf0
    then some (3, 0x90, 0xbf)
    else if leb 0xf1 x && leb x 0xf3
    then some (3, 0x80, 0xbf)
    else if x == 0xf4
    then some (3, 0x80, 0x8f)
    else none

-- `str::from_utf8` accepts the bytes, `n` bytes of a character being still to come.
unfoldable pub utf8_from : ℕ → ℕ → ℕ → List ℕ → Bool
utf8_from zero lo hi [] = true
utf8_from (suc n) lo hi [] = false
utf8_from zero lo hi (x ∷ xs) = elim (utf8_lead x) [
  | some (n, l, h) ↦ utf8_from n l h xs
  | none ↦ false
]
utf8_from (suc n) lo hi (x ∷ xs) = elim (leb lo x && leb x hi) [
  | true ↦ utf8_from n 0x80 0xbf xs
  | false ↦ false
]

unfoldable pub is_utf8 : List ℕ → Bool
is_utf8 bytes = utf8_from 0 0x80 0xbf bytes

-- On invalid text the offset stays, and the error ends the command.
unfoldable pub read_str : ℕ → M (List ℕ)
read_str len = do
  s ← (λ b. slice b.data_offset len b)
  (if is_utf8 s then skip_bytes len else λ b. err invalid_utf8)
  pure s

unfoldable pub read_bytes : ℕ → ℕ → M (List ℕ)
read_bytes pos count = slice pos count

unfoldable pub read_slice : ℕ → M (List ℕ)
read_slice count b = slice b.data_offset count b

unfoldable pub read_blob : ℕ → M (List ℕ)
read_blob len = do val ← (λ b. slice b.data_offset len b); skip_bytes len; pure val

unfoldable pub read_bool : ℕ → M Bool
read_bool len =
    if len == 0 then pure false else (do val ← peek; skip_bytes len; pure (not (val == 0)))
