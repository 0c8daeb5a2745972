-- ===== src/Msgpack/RoundTrip/Whole.antt =====
-- msgpack/: the functions that the rest of the client calls, one after the other on one buffer.
use aerospike_client_rust.Base.{
  ℕ, ◌+◌, ◌^◌, ◌≤◌, ◌<◌, ◌≡◌, refl, ap, ◌∙◌, false, List, ◌++◌, none, some, length, length-append,
  arith, ltb, ◌==◌, bit_and, bit_and-mask, Bool-cases, inl, inr, ltb→lt,
}
use native.Mathlib.Nat.{mod-eq_of_lt}
use aerospike_client_rust.Outcome.{ok, pure, ◌>>=◌}
use aerospike_client_rust.Buffer.{Buffer, M, Fits, append}
use aerospike_client_rust.Buffer.Endian.{Endian}
use aerospike_client_rust.Buffer.Reads.{read_u8, read_u16, read_u32}
use aerospike_client_rust.Buffer.Parsing
use aerospike_client_rust.Buffer.Parsing.{At, At-length, Reads, Reads->>=, Reads->>, Reads-eq}
use aerospike_client_rust.Buffer.Rewound.{rewind, append-At, advance-rewind}
use aerospike_client_rust.Value.{
  Value, Values, no_values, values, Entries, no_entries, entry, length_values, length_entries,
}
use aerospike_client_rust.Msgpack.Encoder.{pack_value}
use aerospike_client_rust.Msgpack.Decoder.{
  unpack_list, unpack_map, unpack_value, read_count, unpack_value_list, unpack_value_map,
}
use aerospike_client_rust.Msgpack.Pack.{Packs}
use aerospike_client_rust.Msgpack.Format.{
  header, array_header, map_header, encode, encode_values, encode_entries, IsPackable, ArePackable,
  EntriesPackable,
}
use aerospike_client_rust.Msgpack.Packed.Values.{pack_value-Packs}
use aerospike_client_rust.Msgpack.Canonical.{
  put_all, canonical, canonical_values, canonical_entries, IsSendable, AreSendable, EntriesSendable,
  nesting_values, nesting_entries,
}
use aerospike_client_rust.Msgpack.RoundTrip.Heads.{
  encode-nonempty, nesting_values-le-length, nesting_entries-le-length,
}
use aerospike_client_rust.Msgpack.RoundTrip.Values.{unpack_list-Reads, unpack_map-Reads}

mutual
  unfolding IsSendable IsPackable

  sendable-IsPackable : (v : Value) → IsSendable v → IsPackable v
  sendable-IsPackable (Value.list vs) h = sendables_packable vs h.1
  sendable-IsPackable (Value.hash_map es) h = entries_packable es h.1
  sendable-IsPackable (Value.ordered_map es) h = h
  sendable-IsPackable Value.nil h = tt
  sendable-IsPackable (Value.bool b) h = tt
  sendable-IsPackable (Value.int z) h = tt
  sendable-IsPackable (Value.uint n) h = tt
  sendable-IsPackable (Value.float f) h = tt
  sendable-IsPackable (Value.string s) h = tt
  sendable-IsPackable (Value.blob bs) h = tt
  sendable-IsPackable (Value.hll bs) h = tt
  sendable-IsPackable (Value.geo_json s) h = tt

  sendables_packable : (vs : Values) → AreSendable vs → ArePackable vs
  sendables_packable no_values h = tt
  sendables_packable (values v vs) h = (sendable-IsPackable v h.0, sendables_packable vs h.1)

  entries_packable : (es : Entries) → EntriesSendable es → EntriesPackable es
  entries_packable no_entries h = tt
  entries_packable (entry k v es) h =
      (sendable-IsPackable k h.0, sendable-IsPackable v h.2, entries_packable es h.3)

pub IsSendable-IsPackable : (v : Value) → IsSendable v → IsPackable v
IsSendable-IsPackable v h = sendable-IsPackable v h

module _ ⦃endian : Endian⦄ where
  -- The count of a list or a map is read back from its header.
  Reads-count :
      (base wide16 wide32 n : ℕ) (f : ℕ → M Value) {a : Value} {bs : List ℕ}
      → n < 2 ^ 32
      → (n < 16 → read_count base wide16 wide32 (base + n) ≡ pure n)
      → read_count base wide16 wide32 wide16 ≡ read_u16 none
      → read_count base wide16 wide32 wide32 ≡ read_u32 none
      → Reads (f n) a bs
      → Reads
          (read_u8 none >>= λ ltype. read_count base wide16 wide32 ltype >>= f)
          a
          (header 16 base wide16 wide32 n ++ bs)
  unfolding header
  Reads-count base wide16 wide32 n f h small m16 m32 r = elim (Bool-cases (ltb n 16)) [
    | inl e ↦ rw e (
        Reads->>= _ (Parsing.Reads-u8 (base + n))
          (rw (small (ltb→lt n 16 e)) (Reads->>= f (Parsing.Reads-pure n) r)))
    | inr e ↦ elim (Bool-cases (ltb n (2 ^ 16))) [
      | inl g ↦
          rw (e, g)
            (Reads->>= _ (Parsing.Reads-u8 wide16)
              (rw m16 (Reads->>= f (Parsing.Reads-u16 n (ltb→lt n (2 ^ 16) g)) r)))
      | inr g ↦
          rw (e, g, mod-eq_of_lt h)
            (Reads->>= _ (Parsing.Reads-u8 wide32) (rw m32 (Reads->>= f (Parsing.Reads-u32 n h) r)))
    ]
  ]

  list_count : (n : ℕ) → n < 16 → read_count 0x90 0xdc 0xdd (0x90 + n) ≡ pure n
  unfolding read_count
  list_count n h =
      let m : bit_and (0x90 + n) 0x0f ≡ n = bit_and-mask 4 (0x90 + n) ∙ omega arith in ground arith

  map_count : (n : ℕ) → n < 16 → read_count 0x80 0xde 0xdf (0x80 + n) ≡ pure n
  unfolding read_count
  map_count n h =
      let m : bit_and (0x80 + n) 0x0f ≡ n = bit_and-mask 4 (0x80 + n) ∙ omega arith in ground arith

  -- What follows the emptiness test of `unpack_value_list` and `unpack_value_map`.
  Reads-list_body :
      (vs : Values) (fuel : ℕ)
      → length_values vs < 2 ^ 32
      → AreSendable vs
      → nesting_values vs ≤ fuel
      → Reads
          (read_u8 none >>= λ ltype.
            read_count 0x90 0xdc 0xdd ltype >>= unpack_list (unpack_value fuel))
          (Value.list (canonical_values vs))
          (array_header (length_values vs) ++ encode_values vs)
  unfolding read_count
  Reads-list_body vs fuel l h le =
      Reads-count 0x90 0xdc 0xdd (length_values vs) (unpack_list (unpack_value fuel)) l
        (list_count (length_values vs)) refl refl (unpack_list-Reads vs fuel h le)

  Reads-map_body :
      (es : Entries) (fuel : ℕ)
      → length_entries es < 2 ^ 32
      → EntriesSendable es
      → nesting_entries es ≤ fuel
      → Reads
          (read_u8 none >>= λ ltype.
            read_count 0x80 0xde 0xdf ltype >>= unpack_map (unpack_value fuel))
          (Value.hash_map (put_all (canonical_entries es) no_entries))
          (map_header (length_entries es) ++ encode_entries es)
  unfolding read_count
  Reads-map_body es fuel l h le =
      Reads-count 0x80 0xde 0xdf (length_entries es) (unpack_map (unpack_value fuel)) l
        (map_count (length_entries es)) refl refl (unpack_map-Reads es fuel h le)

  -- Bytes ahead leave the vector no shorter, so its length is fuel enough and it is not empty.
  ahead_room :
      (b : Buffer) (front back rest : List ℕ) (n : ℕ)
      → At b ((front ++ back) ++ rest)
      → n ≤ length back
      → n ≤ length b.data_buffer
  ahead_room b front back rest n h le = omega (
    arith,
    At-length b ((front ++ back) ++ rest) h,
    length-append (front ++ back) rest,
    length-append front back,
  )

  encode_ahead : (v : Value) → IsSendable v → (rest : List ℕ) → 1 ≤ length (encode v ++ rest)
  encode_ahead v h rest = omega (arith, encode-nonempty v h, length-append (encode v) rest)

  not_empty :
      (b : Buffer) (rest : List ℕ)
      → At b rest
      → 1 ≤ length rest
      → (length b.data_buffer == 0) ≡ false
  not_empty b rest h le = ground (arith, At-length b rest h)

  pub unpack_value_list-Reads :
      (vs : Values)
      → IsSendable (Value.list vs)
      → Reads unpack_value_list (canonical (Value.list vs)) (encode (Value.list vs))
  unfolding unpack_value_list canonical encode IsSendable
  unpack_value_list-Reads vs h = record {
    takes = λ b rest at.
        let room : nesting_values vs ≤ length b.data_buffer =
          ahead_room b (array_header (length_values vs)) (encode_values vs) rest _ at
            (nesting_values-le-length vs h.1) in
        rw (not_empty b _ at (encode_ahead (Value.list vs) h rest))
          ((Reads-list_body vs (length b.data_buffer) h.0 h.1 room).takes b rest at);
  }

  pub unpack_value_map-Reads :
      (es : Entries)
      → IsSendable (Value.hash_map es)
      → Reads unpack_value_map (canonical (Value.hash_map es)) (encode (Value.hash_map es))
  unfolding unpack_value_map canonical encode IsSendable
  unpack_value_map-Reads es h = record {
    takes = λ b rest at.
        let room : nesting_entries es ≤ length b.data_buffer =
          ahead_room b (map_header (length_entries es)) (encode_entries es) rest _ at
            (nesting_entries-le-length es h.1) in
        rw (not_empty b _ at (encode_ahead (Value.hash_map es) h rest))
          ((Reads-map_body es (length b.data_buffer) h.0 h.1 room).takes b rest at);
  }

  -- What a packer wrote is read from where it was written, and the reader ends where the packer
  -- did.
  pub read-written :
      {m : M Value} {a : Value} (b : Buffer) (bs : List ℕ)
      → Fits b (length bs)
      → Reads m a bs
      → m (rewind (append b bs) b.data_offset) ≡ ok (a, append b bs)
  read-written {a = a} b bs fits r =
      let (rest, at) = append-At b bs fits in
      r.takes (rewind (append b bs) b.data_offset) rest at
      ∙ ap (λ c. ok (a, c)) (advance-rewind b bs)

  -- On every buffer with room for the encoding, `pack_value` writes a list without ordered maps,
  -- whose texts are UTF-8 and whose lengths fit 32 bits; and `unpack_value_list`, started at the
  -- offset where `pack_value` started, returns the list with each part in its canonical form, and
  -- leaves the buffer as `pack_value` left it.
  pub unpack_value_list-pack_value :
      (vs : Values) (b : Buffer)
      → IsSendable (Value.list vs)
      → Fits b (length (encode (Value.list vs)))
      → (b' : Buffer) × (pack_value (Value.list vs) (some b)
          ≡ ok (length (encode (Value.list vs)), some b'))
        × (unpack_value_list (rewind b' b.data_offset) ≡ ok (canonical (Value.list vs), b'))
  unpack_value_list-pack_value vs b h fits =
      let packs : Packs (pack_value (Value.list vs)) (encode (Value.list vs)) =
        pack_value-Packs (Value.list vs) (IsSendable-IsPackable (Value.list vs) h) in
      (
        append b (encode (Value.list vs)),
        packs.wet b fits,
        read-written b _ fits (unpack_value_list-Reads vs h),
      )

  -- The same for `unpack_value_map` on a map whose keys can be hashed.
  pub unpack_value_map-pack_value :
      (es : Entries) (b : Buffer)
      → IsSendable (Value.hash_map es)
      → Fits b (length (encode (Value.hash_map es)))
      → (b' : Buffer) × (pack_value (Value.hash_map es) (some b)
          ≡ ok (length (encode (Value.hash_map es)), some b'))
        × (unpack_value_map (rewind b' b.data_offset) ≡ ok (canonical (Value.hash_map es), b'))
  unpack_value_map-pack_value es b h fits =
      let packs : Packs (pack_value (Value.hash_map es)) (encode (Value.hash_map es)) =
        pack_value-Packs (Value.hash_map es) (IsSendable-IsPackable (Value.hash_map es) h) in
      (
        append b (encode (Value.hash_map es)),
        packs.wet b fits,
        read-written b _ fits (unpack_value_map-Reads es h),
      )
