-- ===== src/Msgpack/RoundTrip/Values.antt =====
-- msgpack/decoder.rs: whole values, lists and maps on what the encoder wrote.
use aerospike_client_rust.Base.{
  ℕ, zero, suc, ◌≤◌, ◌≡◌, refl, ap, ◌∙◌, true, false, List, ◌++◌, arith,
}
use aerospike_client_rust.Outcome.{ok, >>=-ok}
use aerospike_client_rust.Buffer.{Buffer, M}
use aerospike_client_rust.Buffer.Endian.{Endian}
use aerospike_client_rust.Buffer.Reads.{peek}
use aerospike_client_rust.Buffer.Parsing
use aerospike_client_rust.Buffer.Parsing.{At, Reads, Reads->>=, Reads->>, Reads-eq}
use aerospike_client_rust.Value.{
  FloatValue, Value, Values, no_values, values, Entries, no_entries, entry, length_values,
  length_entries,
}
use aerospike_client_rust.Value.Convert.{is_hashable, put, insert}
use aerospike_client_rust.Msgpack.Decoder.{
  starts_with_ext, unpack_elements, unpack_list, unpack_entries, unpack_map, unpack_value,
}
use aerospike_client_rust.Msgpack.Format.{encode, encode_values, encode_entries}
use aerospike_client_rust.Msgpack.Canonical.{
  put_all, canonical, canonical_values, canonical_entries, IsSendable, AreSendable, EntriesSendable,
  nesting, nesting_values, nesting_entries, is_hashable-canonical,
}
use aerospike_client_rust.Msgpack.RoundTrip.Words
use aerospike_client_rust.Msgpack.RoundTrip.Integers
use aerospike_client_rust.Msgpack.RoundTrip.Heads.{Plain, plain, Plain-append, Plain-encode}

module _ ⦃endian : Endian⦄ where
  -- Before a plain byte no extension is skipped.
  look-Plain :
      (n : ℕ) {bs : List ℕ}
      → Plain bs
      → (b : Buffer) (rest : List ℕ) → At b (bs ++ rest)
      → starts_with_ext (suc n) b ≡ ok (false, b)
  unfolding starts_with_ext
  look-Plain n (plain x xs e) b rest h =
      >>=-ok peek _ (Parsing.peek-At b x (xs ++ rest) h) ∙ ap (λ y. ok (y, b)) e

  Reads-list :
      (unpack : M Value) (vs : Values) {a : Values}
      → AreSendable vs
      → Reads (unpack_elements unpack (length_values vs)) a (encode_values vs)
      → Reads (unpack_list unpack (length_values vs)) (Value.list a) (encode_values vs)
  unfolding unpack_list length_values encode starts_with_ext IsSendable
  Reads-list unpack no_values h r =
      Reads->>= _ (Parsing.Reads-pure false)
        (Reads->> (Parsing.Reads-pure tt) (Parsing.Reads-map Value.list r))
  Reads-list unpack (values v vs) h r =
      Parsing.Reads-look (starts_with_ext (suc (length_values vs))) _ _
        (look-Plain (length_values vs) (Plain-append (encode_values vs) (Plain-encode v h.0)))
        (Reads->> (Parsing.Reads-pure tt) (Parsing.Reads-map Value.list r))

  Reads-hash_map :
      (unpack : M Value) (es : Entries) {a : Entries}
      → EntriesSendable es
      → Reads (unpack_entries unpack (length_entries es) no_entries) a (encode_entries es)
      → Reads (unpack_map unpack (length_entries es)) (Value.hash_map a) (encode_entries es)
  unfolding unpack_map length_entries encode starts_with_ext IsSendable
  Reads-hash_map unpack no_entries h r =
      Reads->>= _ (Parsing.Reads-pure false)
        (Reads->> (Parsing.Reads-pure tt) (Parsing.Reads-map Value.hash_map r))
  Reads-hash_map unpack (entry k v es) h r =
      Parsing.Reads-look (starts_with_ext (suc (length_entries es))) _ _
        (look-Plain (length_entries es)
          (Plain-append (encode v ++ encode_entries es) (Plain-encode k h.0)))
        (Reads->> (Parsing.Reads-pure tt) (Parsing.Reads-map Value.hash_map r))

  insert-canonical :
      (k v : Value) (es : Entries)
      → is_hashable k ≡ true
      → insert (canonical k) (canonical v) es ≡ ok (put (canonical k) (canonical v) es)
  unfolding insert
  insert-canonical k v es h = rw (is_hashable-canonical k h) refl

  mutual
    unfolding encode IsSendable nesting canonical unpack_value unpack_elements unpack_entries
        length_values length_entries put_all

    value-Reads :
        (v : Value) (fuel : ℕ)
        → IsSendable v
        → nesting v ≤ fuel
        → Reads (unpack_value fuel) (canonical v) (encode v)
    value-Reads Value.nil zero h le = absurd (omega arith)
    value-Reads Value.nil (suc f) h le = Words.Reads-nil (unpack_value f)
    value-Reads (Value.bool true) zero h le = absurd (omega arith)
    value-Reads (Value.bool true) (suc f) h le = Words.Reads-true (unpack_value f)
    value-Reads (Value.bool false) zero h le = absurd (omega arith)
    value-Reads (Value.bool false) (suc f) h le = Words.Reads-false (unpack_value f)
    value-Reads (Value.int z) zero h le = absurd (omega arith)
    value-Reads (Value.int z) (suc f) h le = Integers.Reads-int (unpack_value f) z h
    value-Reads (Value.uint n) zero h le = absurd (omega arith)
    value-Reads (Value.uint n) (suc f) h le = Integers.Reads-uint (unpack_value f) n h
    value-Reads (Value.float (FloatValue.f64 bits)) zero h le = absurd (omega arith)
    value-Reads (Value.float (FloatValue.f64 bits)) (suc f) h le =
        Words.Reads-f64 (unpack_value f) bits h
    value-Reads (Value.float (FloatValue.f32 bits)) zero h le = absurd (omega arith)
    value-Reads (Value.float (FloatValue.f32 bits)) (suc f) h le =
        Words.Reads-f32 (unpack_value f) bits h
    value-Reads (Value.string s) zero h le = absurd (omega arith)
    value-Reads (Value.string s) (suc f) h le = Words.Reads-string (unpack_value f) s h.0 h.1
    value-Reads (Value.blob bs) zero h le = absurd (omega arith)
    value-Reads (Value.blob bs) (suc f) h le = Words.Reads-blob (unpack_value f) bs h
    value-Reads (Value.hll bs) zero h le = absurd (omega arith)
    value-Reads (Value.hll bs) (suc f) h le = Words.Reads-blob (unpack_value f) bs h
    value-Reads (Value.geo_json s) zero h le = absurd (omega arith)
    value-Reads (Value.geo_json s) (suc f) h le = Words.Reads-geo_json (unpack_value f) s h.0 h.1
    value-Reads (Value.list vs) zero h le = absurd (omega arith)
    value-Reads (Value.list vs) (suc f) h le =
        Words.Reads-array_header (unpack_value f) _ h.0
          (Reads-list (unpack_value f) vs h.1 (values_read vs f h.1 (omega arith)))
    value-Reads (Value.hash_map es) zero h le = absurd (omega arith)
    value-Reads (Value.hash_map es) (suc f) h le =
        Words.Reads-map_header (unpack_value f) _ h.0
          (Reads-hash_map (unpack_value f) es h.1 (entries_read es f no_entries h.1 (omega arith)))
    value-Reads (Value.ordered_map es) f h le = absurd h

    values_read :
        (vs : Values) (fuel : ℕ)
        → AreSendable vs
        → nesting_values vs ≤ fuel
        → Reads
            (unpack_elements (unpack_value fuel) (length_values vs))
            (canonical_values vs)
            (encode_values vs)
    values_read no_values f h le = Parsing.Reads-pure no_values
    values_read (values v vs) f h le =
        Reads->>= _ (value-Reads v f h.0 (omega arith))
          (Parsing.Reads-map (values (canonical v)) (values_read vs f h.1 (omega arith)))

    entries_read :
        (es : Entries) (fuel : ℕ) (map : Entries)
        → EntriesSendable es
        → nesting_entries es ≤ fuel
        → Reads
            (unpack_entries (unpack_value fuel) (length_entries es) map)
            (put_all (canonical_entries es) map)
            (encode_entries es)
    entries_read no_entries f map h le = Parsing.Reads-pure map
    entries_read (entry k v es) f map h le = Reads->>= _ (value-Reads k f h.0 (omega arith)) (
        Reads->>= _ (value-Reads v f h.2 (omega arith)) (
          Reads->>= _ (Parsing.Reads-lift _ (insert-canonical k v map h.1))
            (entries_read es f (put (canonical k) (canonical v) map) h.3 (omega arith))))

  -- The decoder, given fuel for the nesting of a value, takes exactly the bytes of the value.
  pub unpack_value-Reads :
      (v : Value) (fuel : ℕ)
      → IsSendable v
      → nesting v ≤ fuel
      → Reads (unpack_value fuel) (canonical v) (encode v)
  unpack_value-Reads v fuel h le = value-Reads v fuel h le

  pub unpack_list-Reads :
      (vs : Values) (fuel : ℕ)
      → AreSendable vs
      → nesting_values vs ≤ fuel
      → Reads
          (unpack_list (unpack_value fuel) (length_values vs))
          (Value.list (canonical_values vs))
          (encode_values vs)
  unpack_list-Reads vs fuel h le = Reads-list (unpack_value fuel) vs h (values_read vs fuel h le)

  pub unpack_map-Reads :
      (es : Entries) (fuel : ℕ)
      → EntriesSendable es
      → nesting_entries es ≤ fuel
      → Reads
          (unpack_map (unpack_value fuel) (length_entries es))
          (Value.hash_map (put_all (canonical_entries es) no_entries))
          (encode_entries es)
  unpack_map-Reads es fuel h le =
      Reads-hash_map (unpack_value fuel) es h (entries_read es fuel no_entries h le)
