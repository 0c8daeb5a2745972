-- ===== src/Msgpack/RoundTrip/Heads.antt =====
-- The first byte of an encoded value, at which the decoder of lists and maps looks for an
-- extension.
use aerospike_client_rust.Base.{
  ℕ, ◌+◌, ◌-◌, ◌^◌, ◌≤◌, ◌<◌, ◌≡◌, refl, Bool, true, false, List, ◌∷◌, ◌++◌, length, length-append,
  ltb, if◌then◌else◌, arith, ltb→lt, ℤ, pos, negsuc,
}
use aerospike_client_rust.Buffer.Endian.{Endian}
use aerospike_client_rust.Value.{
  FloatValue, Value, Values, no_values, values, Entries, no_entries, entry, length_values,
  length_entries,
}
use aerospike_client_rust.Msgpack.Decoder.{is_ext}
use aerospike_client_rust.Msgpack.Format.{
  header, array_header, map_header, encode_int, encode_uint, encode_float, encode_bytes, encode,
  encode_values, encode_entries,
}
use aerospike_client_rust.Msgpack.Canonical.{
  IsSendable, AreSendable, EntriesSendable, nesting, nesting_values, nesting_entries,
}

-- The bytes begin with one that is no extension's.
pub data Plain : List ℕ → Type 0 where
  plain : (x : ℕ) (xs : List ℕ) → is_ext x ≡ false → Plain (x ∷ xs)

pub Plain-append : {bs : List ℕ} (cs : List ℕ) → Plain bs → Plain (bs ++ cs)
Plain-append cs (plain x xs e) = plain x (xs ++ cs) e

Plain-if :
    {bs cs : List ℕ} (b : Bool)
    → (b ≡ true → Plain bs)
    → (b ≡ false → Plain cs)
    → Plain (if b then bs else cs)
Plain-if true h k = h refl
Plain-if false h k = k refl

module _ ⦃endian : Endian⦄ where
  Plain-header :
      (small base wide16 wide32 n : ℕ)
      → (n < small → is_ext (base + n) ≡ false)
      → is_ext wide16 ≡ false
      → is_ext wide32 ≡ false
      → Plain (header small base wide16 wide32 n)
  unfolding header
  Plain-header small base wide16 wide32 n h p q =
      Plain-if (ltb n small) (λ e. plain _ _ (h (ltb→lt n small e)))
        λ _. Plain-if (ltb n (2 ^ 16)) (λ _. plain _ _ p) (λ _. plain _ _ q)

  small_plain : (x : ℕ) → x < 0xc0 → is_ext x ≡ false
  unfolding is_ext
  small_plain x h = ground arith

  high_plain : (x : ℕ) → 0xe0 ≤ x → is_ext x ≡ false
  unfolding is_ext
  high_plain x h = ground arith

  Plain-int : (z : ℤ) → Plain (encode_int z)
  unfolding encode_int is_ext
  Plain-int (pos n) =
      Plain-if (ltb n 128) (λ e. plain n _ (small_plain n (omega (arith, ltb→lt n 128 e))))
        λ _.
          Plain-if (ltb n 32767) (λ _. plain _ _ refl)
            λ _. Plain-if (ltb n 2147483647) (λ _. plain _ _ refl) (λ _. plain _ _ refl)
  Plain-int (negsuc n) =
      Plain-if (ltb n 32) (λ e. plain _ _ (high_plain (255 - n) (omega (arith, ltb→lt n 32 e))))
        λ _.
          Plain-if (ltb n 128) (λ _. plain _ _ refl)
            λ _.
              Plain-if (ltb n 32768) (λ _. plain _ _ refl)
                λ _. Plain-if (ltb n 2147483648) (λ _. plain _ _ refl) (λ _. plain _ _ refl)

  Plain-uint : (n : ℕ) → Plain (encode_uint n)
  unfolding encode_uint is_ext
  Plain-uint n = Plain-if (ltb n (2 ^ 63)) (λ _. Plain-int (pos n)) (λ _. plain _ _ refl)

  Plain-bytes : (code : ℕ) (bs : List ℕ) → Plain (encode_bytes code bs)
  unfolding encode_bytes is_ext
  Plain-bytes code bs = Plain-append _ (
      Plain-header 32 0xa0 0xda 0xdb (length bs + 1)
        (λ h. small_plain (0xa0 + (length bs + 1)) (omega arith)) refl refl)

  Plain-array_header : (n : ℕ) → Plain (array_header n)
  unfolding is_ext
  Plain-array_header n =
      Plain-header 16 0x90 0xdc 0xdd n (λ h. small_plain (0x90 + n) (omega arith)) refl refl

  Plain-map_header : (n : ℕ) → Plain (map_header n)
  unfolding is_ext
  Plain-map_header n =
      Plain-header 16 0x80 0xde 0xdf n (λ h. small_plain (0x80 + n) (omega arith)) refl refl

  pub Plain-encode : (v : Value) → IsSendable v → Plain (encode v)
  unfolding encode is_ext encode_float IsSendable
  Plain-encode Value.nil h = plain _ _ refl
  Plain-encode (Value.bool true) h = plain _ _ refl
  Plain-encode (Value.bool false) h = plain _ _ refl
  Plain-encode (Value.int z) h = Plain-int z
  Plain-encode (Value.uint n) h = Plain-uint n
  Plain-encode (Value.float (FloatValue.f64 bits)) h = plain _ _ refl
  Plain-encode (Value.float (FloatValue.f32 bits)) h = plain _ _ refl
  Plain-encode (Value.string s) h = Plain-bytes 3 s
  Plain-encode (Value.blob bs) h = Plain-bytes 4 bs
  Plain-encode (Value.hll bs) h = Plain-bytes 4 bs
  Plain-encode (Value.geo_json s) h = Plain-bytes 23 s
  Plain-encode (Value.list vs) h = Plain-append _ (Plain-array_header _)
  Plain-encode (Value.hash_map es) h = Plain-append _ (Plain-map_header _)
  Plain-encode (Value.ordered_map es) h = absurd h

  Plain-length : {bs : List ℕ} → Plain bs → 1 ≤ length bs
  Plain-length (plain x xs e) = omega arith

  pub encode-nonempty : (v : Value) → IsSendable v → 1 ≤ length (encode v)
  encode-nonempty v h = Plain-length (Plain-encode v h)

  mutual
    unfolding encode nesting IsSendable

    nesting_le : (v : Value) → IsSendable v → nesting v ≤ length (encode v)
    nesting_le (Value.list vs) h = omega (
      arith,
      nestings_le vs h.1,
      Plain-length (Plain-array_header (length_values vs)),
      length-append (array_header (length_values vs)) (encode_values vs),
    )
    nesting_le (Value.hash_map es) h = omega (
      arith,
      nesting_entries_le es h.1,
      Plain-length (Plain-map_header (length_entries es)),
      length-append (map_header (length_entries es)) (encode_entries es),
    )
    nesting_le v h = encode-nonempty v h

    nestings_le : (vs : Values) → AreSendable vs → nesting_values vs ≤ length (encode_values vs)
    nestings_le no_values h = omega arith
    nestings_le (values v vs) h =
        omega
          (arith, nesting_le v h.0, nestings_le vs h.1, length-append (encode v) (encode_values vs))

    nesting_entries_le :
        (es : Entries) → EntriesSendable es → nesting_entries es ≤ length (encode_entries es)
    nesting_entries_le no_entries h = omega arith
    nesting_entries_le (entry k v es) h = omega (
      arith,
      nesting_le k h.0,
      nesting_le v h.2,
      nesting_entries_le es h.3,
      length-append (encode k) (encode v ++ encode_entries es),
      length-append (encode v) (encode_entries es),
    )

  -- The decoder's recursion is no deeper than the value's bytes are many.
  pub nesting-le-length : (v : Value) → IsSendable v → nesting v ≤ length (encode v)
  nesting-le-length v h = nesting_le v h

  pub nesting_values-le-length :
      (vs : Values) → AreSendable vs → nesting_values vs ≤ length (encode_values vs)
  nesting_values-le-length vs h = nestings_le vs h

  pub nesting_entries-le-length :
      (es : Entries) → EntriesSendable es → nesting_entries es ≤ length (encode_entries es)
  nesting_entries-le-length es h = nesting_entries_le es h
