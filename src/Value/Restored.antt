-- ===== src/Value/Restored.antt =====
-- value.rs: `bytes_to_particle` on what `write_to` wrote.
use aerospike_client_rust.Base.{
  ℕ, suc, ◌-◌, ◌%◌, ◌^◌, ◌<◌, ◌≡◌, refl, ap, ◌∙◌, Bool, true, false, not, List, [], ◌∷◌, none,
  length, if◌then◌else◌, ltb, leb, lt→ltb, ◌==◌, arith, ℤ, pos, negsuc, IsI64, as_signed,
  as_unsigned,
}
use native.Mathlib.Nat.{mod-eq_of_lt}
use aerospike_client_rust.Outcome.{ok, pure, ◌>>◌, >>=-ok}
use aerospike_client_rust.Buffer.{Buffer, Fits, append}
use aerospike_client_rust.Buffer.Endian.{Endian}
use aerospike_client_rust.Buffer.Reads.{
  skip, skip_bytes, peek, read_u16, read_i16, read_bool, is_utf8,
}
use aerospike_client_rust.Buffer.Parsing
use aerospike_client_rust.Buffer.Parsing.{Reads, peek-At, skip-ok}
use aerospike_client_rust.Buffer.Rewound.{rewind}
use aerospike_client_rust.Value.{FloatValue, Value}
use aerospike_client_rust.Value.Convert.{from_f64}
use aerospike_client_rust.Value.Wire.{payload, type_of, IsStorable, write_to, write_to-Writes}
use aerospike_client_rust.Value.Particle.{
  cells_size, text_size, read_geo_json, read_particle, bytes_to_particle,
}
use aerospike_client_rust.Msgpack.Canonical.{canonical, IsSendable}
use aerospike_client_rust.Msgpack.RoundTrip.Whole.{
  read-written, unpack_value_list-Reads, unpack_value_map-Reads,
}
use aerospike_client_rust.Commands.ParticleType
use aerospike_client_rust.Commands.ParticleType.{from-code}

signed_word : (z : ℤ) → IsI64 z → as_signed (2 ^ 63) (as_unsigned (2 ^ 64) z) ≡ z
signed_word (pos n) h =
    let e : n % 2 ^ 64 ≡ n = mod-eq_of_lt (omega arith) in rw (e, lt→ltb n (2 ^ 63) h) refl
signed_word (negsuc n) h =
    let e : n % 2 ^ 64 ≡ n = mod-eq_of_lt (omega arith) in
    let late : ltb (2 ^ 64 - 1 - n) (2 ^ 63) ≡ false = ground arith in
    rw (e, late) (ap negsuc (omega arith))

-- What comes back: an HLL value as itself, everything else as from a list.
unfoldable pub restored : Value → Value
restored (Value.hll bs) = Value.hll bs
restored v = canonical v

Reads-skip : (x : ℕ) → Reads (skip 1) tt (x ∷ [])
unfolding skip
Reads-skip x = record { takes = λ b rest h. refl }

Reads-skip_none : Reads (skip 0) tt []
unfolding skip
Reads-skip_none = record { takes = λ b rest h. refl }

Reads-flag : (x : ℕ) → Reads (read_bool 1) (not (x == 0)) (x ∷ [])
unfolding read_bool
Reads-flag x = record {
  takes = λ b rest h.
      >>=-ok peek (λ val. skip_bytes 1 >> pure (not (val == 0))) (peek-At b x rest h)
      ∙ skip-ok b (not (x == 0)) 1;
}

Reads-bool : (b : Bool) → Reads (read_bool 1) b ((if b then 1 else 0) ∷ [])
Reads-bool true = Reads-flag 1
Reads-bool false = Reads-flag 0

as_unsigned_small : (z : ℤ) → as_unsigned (2 ^ 64) z < 2 ^ 64
as_unsigned_small (pos n) = omega arith
as_unsigned_small (negsuc n) = omega arith

text_size_lem : (n : ℕ) → text_size (suc (suc (suc n))) 0 ≡ ok n
unfolding text_size
text_size_lem n =
    let room : leb 3 (suc (suc (suc n))) ≡ true = ground arith in rw room (ap ok (omega arith))

module _ ⦃endian : Endian⦄ where
  Reads-no_cells : Reads (read_i16 none) (pos 0) (0 ∷ 0 ∷ [])
  unfolding read_i16 read_u16
  Reads-no_cells =
      let zero_cells : endian.from_be16 (0 ∷ 0 ∷ []) ≡ 0 =
        omega (arith, endian.from_be16-bytes 0 0) in
      Parsing.Reads-map (as_signed (2 ^ 15))
        (Parsing.Reads-word endian.from_be16 2 (0 ∷ 0 ∷ []) refl zero_cells)

  Reads-geo_json :
      (s : List ℕ)
      → is_utf8 s ≡ true
      → Reads (read_geo_json (suc (suc (suc (length s))))) (Value.geo_json s) (0 ∷ 0 ∷ 0 ∷ s)
  unfolding read_geo_json cells_size
  Reads-geo_json s valid = Parsing.Reads->> (Reads-skip 0) (
      Parsing.Reads->>= _ Reads-no_cells (
        Parsing.Reads->>= _ (Parsing.Reads-lift (cells_size 0) refl) (
          Parsing.Reads->> Reads-skip_none (
            Parsing.Reads->>= _ (Parsing.Reads-lift _ (text_size_lem (length s)))
              (Parsing.Reads-map Value.geo_json (Parsing.Reads-str s valid))))))

  read_particle-Reads :
      (v : Value)
      → IsStorable v
      → IsSendable v
      → Reads (read_particle (type_of v) (length (payload v))) (restored v) (payload v)
  unfolding read_particle type_of payload restored canonical IsStorable IsSendable
  read_particle-Reads Value.nil h k = Parsing.Reads-pure Value.nil
  read_particle-Reads (Value.int z) h k =
      Parsing.Reads-result
        (Parsing.Reads-map Value.int
          (Parsing.Reads-i64 (as_unsigned (2 ^ 64) z) (as_unsigned_small z)))
        (ap Value.int (signed_word z k))
  read_particle-Reads (Value.uint n) h k = absurd h
  read_particle-Reads (Value.bool b) h k = Parsing.Reads-map Value.bool (Reads-bool b)
  read_particle-Reads (Value.float (FloatValue.f64 bits)) h k =
      Parsing.Reads-map (λ val. Value.float (from_f64 val)) (Parsing.Reads-f64 bits k)
  read_particle-Reads (Value.float (FloatValue.f32 bits)) h k = absurd h
  read_particle-Reads (Value.string s) h (valid, k) =
      Parsing.Reads-map Value.string (Parsing.Reads-str s valid)
  read_particle-Reads (Value.blob bs) h k = Parsing.Reads-map Value.blob (Parsing.Reads-blob bs)
  read_particle-Reads (Value.hll bs) h k = Parsing.Reads-map Value.hll (Parsing.Reads-blob bs)
  read_particle-Reads (Value.list vs) h k = unpack_value_list-Reads vs k
  read_particle-Reads (Value.hash_map es) h k = unpack_value_map-Reads es k
  read_particle-Reads (Value.ordered_map es) h k = absurd h
  read_particle-Reads (Value.geo_json s) h (valid, k) = Reads-geo_json s valid

  -- A value that a bin can hold and whose parts have the ranges of their types is written into
  -- every buffer with room for its payload, and `bytes_to_particle`, given its type code and the
  -- length of the payload, reads it back from where it was written, up to where the writer ended:
  -- a list or a map in canonical form, a NaN as the one NaN, and everything else as it was.
  pub bytes_to_particle-write_to :
      (v : Value) (b : Buffer)
      → IsStorable v
      → IsSendable v
      → Fits b (length (payload v))
      → (b' : Buffer) × (write_to v b ≡ ok (length (payload v), b'))
        × (bytes_to_particle
              (ParticleType.code (type_of v))
              (length (payload v))
              (rewind b' b.data_offset)
            ≡ ok (restored v, b'))
  unfolding bytes_to_particle
  bytes_to_particle-write_to v b h k fits = (
    append b (payload v),
    (write_to-Writes v h).runs b fits,
    read-written b (payload v) fits (
        Parsing.Reads->>= _ (Parsing.Reads-lift _ (from-code (type_of v)))
          (read_particle-Reads v h k)),
  )
