-- ===== src/Msgpack/Format.antt =====
-- The bytes that a value stands for on the wire, without a buffer: the reference for
-- msgpack/encoder.rs.
use aerospike_client_rust.Base.{
  ℕ, ◌+◌, ◌-◌, ◌%◌, ◌^◌, true, false, List, [], ◌∷◌, ◌++◌, length, ltb, if◌then◌else◌, ℤ, pos,
  negsuc,
}
use aerospike_client_rust.Buffer.Endian.{Endian}
use aerospike_client_rust.Value.{
  FloatValue, Value, Values, no_values, values, Entries, no_entries, entry, length_values,
  length_entries,
}

module _ ⦃endian : Endian⦄ where
  open endian use {be16, be32, be64}

  -- The header of a sequence: its length in the marker if it is below `small`, or behind one of
  -- two markers in 16 or 32 bits.
  unfoldable pub header : ℕ → ℕ → ℕ → ℕ → ℕ → List ℕ
  header small base wide16 wide32 n =
      if ltb n small
      then (base + n) ∷ []
      else if ltb n (2 ^ 16)
      then wide16 ∷ be16 n
      else wide32 ∷ be32 (n % 2 ^ 32)

  abbrev pub array_header : ℕ → List ℕ
  array_header = header 16 0x90 0xdc 0xdd

  abbrev pub map_header : ℕ → List ℕ
  map_header = header 16 0x80 0xde 0xdf

  abbrev pub bytes_header : ℕ → List ℕ
  bytes_header = header 32 0xa0 0xda 0xdb

  -- The shortest of the forms that the encoder uses. A negative number is -(n + 1).
  unfoldable pub encode_int : ℤ → List ℕ
  encode_int (pos n) =
      if ltb n 128
      then n ∷ []
      else if ltb n 32767
      then 0xcd ∷ be16 n
      else if ltb n 2147483647
      then 0xce ∷ be32 n
      else 0xd3 ∷ be64 (n % 2 ^ 64)
  encode_int (negsuc n) =
      if ltb n 32
      then (255 - n) ∷ []
      else if ltb n 128
      then 0xd0 ∷ (255 - n) ∷ []
      else if ltb n 32768
      then 0xd1 ∷ be16 (65535 - n)
      else if ltb n 2147483648
      then 0xd2 ∷ be32 (4294967295 - n)
      else 0xd3 ∷ be64 (2 ^ 64 - 1 - n % 2 ^ 64)

  unfoldable pub encode_uint : ℕ → List ℕ
  encode_uint n = if ltb n (2 ^ 63) then encode_int (pos n) else 0xcf ∷ be64 n

  unfoldable pub encode_float : FloatValue → List ℕ
  encode_float (FloatValue.f64 bits) = 0xcb ∷ be64 bits
  encode_float (FloatValue.f32 bits) = 0xca ∷ be32 bits

  -- A payload behind its length and the code of its type.
  unfoldable pub encode_bytes : ℕ → List ℕ → List ℕ
  encode_bytes code bs = bytes_header (length bs + 1) ++ (code ∷ bs)

  unfoldable mutual
    pub encode : Value → List ℕ
    encode Value.nil = 0xc0 ∷ []
    encode (Value.bool true) = 0xc3 ∷ []
    encode (Value.bool false) = 0xc2 ∷ []
    encode (Value.int z) = encode_int z
    encode (Value.uint n) = encode_uint n
    encode (Value.float f) = encode_float f
    encode (Value.string s) = encode_bytes 3 s
    encode (Value.blob bs) = encode_bytes 4 bs
    encode (Value.hll bs) = encode_bytes 4 bs
    encode (Value.geo_json s) = encode_bytes 23 s
    encode (Value.list vs) = array_header (length_values vs) ++ encode_values vs
    encode (Value.hash_map es) = map_header (length_entries es) ++ encode_entries es
    encode (Value.ordered_map es) = []

    pub encode_values : Values → List ℕ
    encode_values no_values = []
    encode_values (values v vs) = encode v ++ encode_values vs

    pub encode_entries : Entries → List ℕ
    encode_entries no_entries = []
    encode_entries (entry k v es) = encode k ++ (encode v ++ encode_entries es)

-- The encoder refuses ordered maps, at any depth, by a panic.
unfoldable mutual
  pub IsPackable : Value → Type 0
  IsPackable (Value.list vs) = ArePackable vs
  IsPackable (Value.hash_map es) = EntriesPackable es
  IsPackable (Value.ordered_map es) = ⊥
  IsPackable _ = Unit {0}

  pub ArePackable : Values → Type 0
  ArePackable no_values = Unit {0}
  ArePackable (values v vs) = IsPackable v × ArePackable vs

  pub EntriesPackable : Entries → Type 0
  EntriesPackable no_entries = Unit {0}
  EntriesPackable (entry k v es) = IsPackable k × IsPackable v × EntriesPackable es
