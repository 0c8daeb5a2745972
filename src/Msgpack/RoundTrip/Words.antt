-- ===== src/Msgpack/RoundTrip/Words.antt =====
-- msgpack/decoder.rs: the arms of `unpack_value` for integers, floats, payloads and the headers of
-- lists and maps.
use aerospike_client_rust.Base.{
  ℕ, ◌+◌, ◌-◌, ◌^◌, ◌<◌, ◌≡◌, ◌∙◌, true, false, List, [], ◌∷◌, ◌++◌, length, ltb, ◌==◌, bit_and,
  bit_and-mask, arith, ltb→lt, Bool-cases, inl, inr, pos, negsuc,
}
use native.Mathlib.Nat.{mod-eq_of_lt}
use aerospike_client_rust.Outcome.{pure}
use aerospike_client_rust.Buffer.{M}
use aerospike_client_rust.Buffer.Endian.{Endian}
use aerospike_client_rust.Buffer.Reads.{is_utf8}
use aerospike_client_rust.Buffer.Parsing
use aerospike_client_rust.Buffer.Parsing.{Reads, Reads->>=, Reads-eq}
use aerospike_client_rust.Value.{FloatValue, Value}
use aerospike_client_rust.Value.Convert.{from_f64, from_f32}
use aerospike_client_rust.Commands.ParticleType
use aerospike_client_rust.Commands.ParticleType.{ParticleType}
use aerospike_client_rust.Msgpack.Decoder.{
  unpack_type, unpack_one, unpack_blob, unpack_payload, unpack_list, unpack_map,
}
use aerospike_client_rust.Msgpack.Format.{
  header, array_header, map_header, bytes_header, encode_float, encode_bytes,
}

module _ ⦃endian : Endian⦄ (unpack : M Value) where
  open endian use {be16, be32, be64}

  pub Reads-tag :
      (t : ℕ) {a : Value} {bs : List ℕ}
      → Reads (unpack_type unpack t) a bs
      → Reads (unpack_one unpack) a (t ∷ bs)
  unfolding unpack_one
  Reads-tag t r = Reads->>= _ (Parsing.Reads-u8 t) r

  pub type_small : (t : ℕ) → t < 128 → unpack_type unpack t ≡ pure (Value.int (pos t))
  unfolding unpack_type
  type_small t h = ground arith

  type_map : (n : ℕ) → n < 16 → unpack_type unpack (0x80 + n) ≡ unpack_map unpack n
  unfolding unpack_type
  type_map n h =
      let m : bit_and (0x80 + n) 0x0f ≡ n = bit_and-mask 4 (0x80 + n) ∙ omega arith in ground arith

  type_list : (n : ℕ) → n < 16 → unpack_type unpack (0x90 + n) ≡ unpack_list unpack n
  unfolding unpack_type
  type_list n h =
      let m : bit_and (0x90 + n) 0x0f ≡ n = bit_and-mask 4 (0x90 + n) ∙ omega arith in ground arith

  type_blob : (n : ℕ) → n < 32 → unpack_type unpack (0xa0 + n) ≡ unpack_blob n
  unfolding unpack_type
  type_blob n h =
      let m : bit_and (0xa0 + n) 0x1f ≡ n = bit_and-mask 5 (0xa0 + n) ∙ omega arith in ground arith

  pub type_negative : (n : ℕ) → n < 32 → unpack_type unpack (255 - n) ≡ pure (Value.int (negsuc n))
  unfolding unpack_type
  type_negative n h = ground arith

  -- A header of a list, a map or a payload leads to the reader of its parts with the length.
  pub Reads-array_header :
      (n : ℕ) {a : Value} {bs : List ℕ}
      → n < 2 ^ 32
      → Reads (unpack_list unpack n) a bs
      → Reads (unpack_one unpack) a (array_header n ++ bs)
  unfolding header unpack_type
  Reads-array_header n h r = elim (Bool-cases (ltb n 16)) [
    | inl e ↦ rw e (Reads-tag (0x90 + n) (rw (type_list n (ltb→lt n 16 e)) r))
    | inr e ↦ elim (Bool-cases (ltb n (2 ^ 16))) [
      | inl f ↦
          rw (e, f) (Reads-tag 0xdc (Reads->>= _ (Parsing.Reads-u16 n (ltb→lt n (2 ^ 16) f)) r))
      | inr f ↦ rw (e, f, mod-eq_of_lt h) (Reads-tag 0xdd (Reads->>= _ (Parsing.Reads-u32 n h) r))
    ]
  ]

  pub Reads-map_header :
      (n : ℕ) {a : Value} {bs : List ℕ}
      → n < 2 ^ 32
      → Reads (unpack_map unpack n) a bs
      → Reads (unpack_one unpack) a (map_header n ++ bs)
  unfolding header unpack_type
  Reads-map_header n h r = elim (Bool-cases (ltb n 16)) [
    | inl e ↦ rw e (Reads-tag (0x80 + n) (rw (type_map n (ltb→lt n 16 e)) r))
    | inr e ↦ elim (Bool-cases (ltb n (2 ^ 16))) [
      | inl f ↦
          rw (e, f) (Reads-tag 0xde (Reads->>= _ (Parsing.Reads-u16 n (ltb→lt n (2 ^ 16) f)) r))
      | inr f ↦ rw (e, f, mod-eq_of_lt h) (Reads-tag 0xdf (Reads->>= _ (Parsing.Reads-u32 n h) r))
    ]
  ]

  Reads-bytes_header :
      (n : ℕ) {a : Value} {bs : List ℕ}
      → n < 2 ^ 32
      → Reads (unpack_blob n) a bs
      → Reads (unpack_one unpack) a (bytes_header n ++ bs)
  unfolding header unpack_type
  Reads-bytes_header n h r = elim (Bool-cases (ltb n 32)) [
    | inl e ↦ rw e (Reads-tag (0xa0 + n) (rw (type_blob n (ltb→lt n 32 e)) r))
    | inr e ↦ elim (Bool-cases (ltb n (2 ^ 16))) [
      | inl f ↦
          rw (e, f) (Reads-tag 0xda (Reads->>= _ (Parsing.Reads-u16 n (ltb→lt n (2 ^ 16) f)) r))
      | inr f ↦ rw (e, f, mod-eq_of_lt h) (Reads-tag 0xdb (Reads->>= _ (Parsing.Reads-u32 n h) r))
    ]
  ]

  -- A payload behind its length and the code of its type.
  Reads-payload :
      (type : ParticleType) (bs : List ℕ) {a : Value}
      → Reads (unpack_payload (ParticleType.code type) (length bs) type) a bs
      → Reads (unpack_blob (length bs + 1)) a (ParticleType.code type ∷ bs)
  unfolding unpack_blob
  Reads-payload type bs {a} r =
      let e : length bs + 1 - 1 ≡ length bs = omega arith in
      let ne : (length bs + 1 == 0) ≡ false = ground arith in
      Reads->>= _ (Parsing.Reads-u8 (ParticleType.code type)) (
        rw (ne, e)
          (Parsing.Reads->> (Parsing.Reads-pure tt)
            (Reads->>= _ (Parsing.Reads-lift _ (ParticleType.from-code type)) r)))

  pub Reads-blob :
      (bs : List ℕ)
      → length bs + 1 < 2 ^ 32
      → Reads (unpack_one unpack) (Value.blob bs) (encode_bytes 4 bs)
  unfolding encode_bytes ParticleType.code unpack_payload
  Reads-blob bs h =
      Reads-bytes_header _ h
        (Reads-payload ParticleType.blob bs (Parsing.Reads-map Value.blob (Parsing.Reads-blob bs)))

  pub Reads-string :
      (s : List ℕ)
      → is_utf8 s ≡ true
      → length s + 1 < 2 ^ 32
      → Reads (unpack_one unpack) (Value.string s) (encode_bytes 3 s)
  unfolding encode_bytes ParticleType.code unpack_payload
  Reads-string s u h =
      Reads-bytes_header _ h (
        Reads-payload ParticleType.string s
          (Parsing.Reads-map Value.string (Parsing.Reads-str s u)))

  pub Reads-geo_json :
      (s : List ℕ)
      → is_utf8 s ≡ true
      → length s + 1 < 2 ^ 32
      → Reads (unpack_one unpack) (Value.geo_json s) (encode_bytes 23 s)
  unfolding encode_bytes ParticleType.code unpack_payload
  Reads-geo_json s u h = Reads-bytes_header _ h (
      Reads-payload ParticleType.geojson s
        (Parsing.Reads-map Value.geo_json (Parsing.Reads-str s u)))

  pub Reads-nil : Reads (unpack_one unpack) Value.nil (0xc0 ∷ [])
  unfolding unpack_type
  Reads-nil = Reads-tag 0xc0 (Parsing.Reads-pure Value.nil)

  pub Reads-true : Reads (unpack_one unpack) (Value.bool true) (0xc3 ∷ [])
  unfolding unpack_type
  Reads-true = Reads-tag 0xc3 (Parsing.Reads-pure (Value.bool true))

  pub Reads-false : Reads (unpack_one unpack) (Value.bool false) (0xc2 ∷ [])
  unfolding unpack_type
  Reads-false = Reads-tag 0xc2 (Parsing.Reads-pure (Value.bool false))

  pub Reads-f64 :
      (bits : ℕ)
      → bits < 2 ^ 64
      → Reads (unpack_one unpack) (Value.float (from_f64 bits)) (encode_float (FloatValue.f64 bits))
  unfolding unpack_type encode_float
  Reads-f64 bits h =
      Reads-tag 0xcb (Parsing.Reads-map (λ x. Value.float (from_f64 x)) (Parsing.Reads-f64 bits h))

  pub Reads-f32 :
      (bits : ℕ)
      → bits < 2 ^ 32
      → Reads (unpack_one unpack) (Value.float (from_f32 bits)) (encode_float (FloatValue.f32 bits))
  unfolding unpack_type encode_float
  Reads-f32 bits h =
      Reads-tag 0xca (Parsing.Reads-map (λ x. Value.float (from_f32 x)) (Parsing.Reads-f32 bits h))
