-- ===== src/Msgpack/Packed/Words.antt =====
-- msgpack/encoder.rs: the fixed-width words and the headers of sequences.
use aerospike_client_rust.Base.{
  ℕ, suc, ◌+◌, ◌-◌, ◌*◌, ◌%◌, ◌^◌, ◌≤◌, ◌<◌, ◌≡◌, refl, ap, ◌∙◌, Bool, ◌&&◌, true, false, List, [],
  ◌∷◌, length, ltb, leb, if◌then◌else◌, bit_or, agree_below, same_below, arith, ltb→lt, Bool-cases,
  inl, inr, ℤ, as_unsigned, as_signed, as_i16, as_i32,
}
use native.Mathlib.Nat.{mod-eq_of_lt}
use aerospike_client_rust.Outcome.{◌>>◌}
use aerospike_client_rust.Buffer.{M}
use aerospike_client_rust.Buffer.Endian.{Endian}
use aerospike_client_rust.Buffer.Writes.{write_u8}
use aerospike_client_rust.Buffer.Building
use aerospike_client_rust.Buffer.Building.{Writes}
use aerospike_client_rust.Msgpack.Pack.{emit, Packs, Packs-emit, Packs-eq}
use aerospike_client_rust.Msgpack.Encoder.{
  pack_half_byte, pack_byte, pack_bool, pack_i16, pack_i32, pack_i64, pack_map_begin,
  pack_array_begin, pack_byte_array_begin,
}
use aerospike_client_rust.Msgpack.Format.{header, array_header, map_header, bytes_header}

-- A marker behind which `m` writes `bs`.
pub Packs-marked :
    {m : M ℕ} {r : ℕ} {bs : List ℕ} (marker n : ℕ)
    → Writes m r bs
    → suc (length bs) ≡ n
    → Packs (emit (write_u8 marker >> m) n) (marker ∷ bs)
Packs-marked marker n w e = Packs-emit n (Building.Writes->> (Building.Writes-u8 marker) w) e

pub Packs-half_byte : (v : ℕ) → Packs (pack_half_byte v) (v ∷ [])
unfolding pack_half_byte
Packs-half_byte v = Packs-emit 1 (Building.Writes-u8 v) refl

pub Packs-byte : (marker v : ℕ) → Packs (pack_byte marker v) (marker ∷ v ∷ [])
unfolding pack_byte
Packs-byte marker v = Packs-marked marker 2 (Building.Writes-u8 v) refl

pub Packs-bool : (v : Bool) → Packs (pack_bool v) ((if v then 0xc3 else 0xc2) ∷ [])
unfolding pack_bool
Packs-bool true = Packs-emit 1 (Building.Writes-u8 0xc3) refl
Packs-bool false = Packs-emit 1 (Building.Writes-u8 0xc2) refl

-- A cast to the signed type and back gives the pattern again.
pub unsigned-signed : (half u : ℕ) → u < 2 * half → as_unsigned (2 * half) (as_signed half u) ≡ u
unsigned-signed half u h = elim (Bool-cases (ltb u half)) [
  | inl e ↦ rw (e, as_unsigned) (mod-eq_of_lt h)
  | inr e ↦ rw (e, as_unsigned) (omega (arith, high))
]
  where
    high : (2 * half - 1 - u) % (2 * half) ≡ 2 * half - 1 - u
    high = mod-eq_of_lt (omega arith)

or_80 : (n : ℕ) → n < 16 → bit_or 0x80 n ≡ 0x80 + n
unfolding same_below
or_80 n h = agree_below (bit_or 0x80) (◌+◌ 0x80) 16 n refl h

or_90 : (n : ℕ) → n < 16 → bit_or 0x90 n ≡ 0x90 + n
unfolding same_below
or_90 n h = agree_below (bit_or 0x90) (◌+◌ 0x90) 16 n refl h

or_a0 : (n : ℕ) → n < 32 → bit_or 0xa0 n ≡ 0xa0 + n
unfolding same_below
or_a0 n h = agree_below (bit_or 0xa0) (◌+◌ 0xa0) 32 n refl h

pub or_e0 : (n : ℕ) → n < 32 → bit_or 0xe0 n ≡ 0xe0 + n
unfolding same_below
or_e0 n h = agree_below (bit_or 0xe0) (◌+◌ 0xe0) 32 n refl h

module _ ⦃endian : Endian⦄ where
  open endian use {be16, be32, be64}

  -- A word of 16, 32 or 64 bits behind its marker, for an integer that has the pattern.
  pub Packs-i16 :
      (marker : ℕ) (z : ℤ) {u : ℕ}
      → as_unsigned (2 ^ 16) z ≡ u
      → Packs (pack_i16 marker z) (marker ∷ be16 u)
  unfolding pack_i16
  Packs-i16 marker z e =
      Packs-eq (Packs-marked marker 3 (Building.Writes-i16 z) (ap suc (endian.length-be16 _)))
        (ap (λ x. marker ∷ be16 x) e)

  pub Packs-i32 :
      (marker : ℕ) (z : ℤ) {u : ℕ}
      → as_unsigned (2 ^ 32) z ≡ u
      → Packs (pack_i32 marker z) (marker ∷ be32 u)
  unfolding pack_i32
  Packs-i32 marker z e =
      Packs-eq (Packs-marked marker 5 (Building.Writes-i32 z) (ap suc (endian.length-be32 _)))
        (ap (λ x. marker ∷ be32 x) e)

  pub Packs-i64 :
      (marker : ℕ) (z : ℤ) {u : ℕ}
      → as_unsigned (2 ^ 64) z ≡ u
      → Packs (pack_i64 marker z) (marker ∷ be64 u)
  unfolding pack_i64
  Packs-i64 marker z e =
      Packs-eq (Packs-marked marker 9 (Building.Writes-i64 z) (ap suc (endian.length-be64 _)))
        (ap (λ x. marker ∷ be64 x) e)

  -- The three headers share their shape.
  Packs-header :
      (small base wide16 wide32 n : ℕ)
      → small ≤ 256
      → (n < small → bit_or base n ≡ base + n)
      → Packs
          (if ltb n small
            then pack_half_byte (bit_or base (n % 2 ^ 8))
            else if leb small n && ltb n (2 ^ 16)
            then pack_i16 wide16 (as_i16 n)
            else pack_i32 wide32 (as_i32 n))
          (header small base wide16 wide32 n)
  unfolding header
  Packs-header small base wide16 wide32 n le or = elim (Bool-cases (ltb n small)) [
    | inl e ↦
        let lt : n < small = ltb→lt n small e in
        let m : n % 2 ^ 8 ≡ n = omega arith in rw (e, m, or lt) (Packs-half_byte (base + n))
    | inr e ↦
        let above : leb small n ≡ true = ground arith in
        elim (Bool-cases (ltb n (2 ^ 16))) [
          | inl f ↦
              let lt : n < 2 ^ 16 = ltb→lt n (2 ^ 16) f in
              rw (e, f, above)
                (Packs-i16 wide16 (as_i16 n)
                  (unsigned-signed (2 ^ 15) (n % 2 ^ 16) (omega arith) ∙ mod-eq_of_lt lt))
          | inr f ↦
              rw (e, f, above)
                (Packs-i32 wide32 (as_i32 n) (unsigned-signed (2 ^ 31) (n % 2 ^ 32) (omega arith)))
        ]
  ]

  pub Packs-array_begin : (n : ℕ) → Packs (pack_array_begin n) (array_header n)
  unfolding pack_array_begin
  Packs-array_begin n = Packs-header 16 0x90 0xdc 0xdd n (omega arith) (or_90 n)

  pub Packs-map_begin : (n : ℕ) → Packs (pack_map_begin n) (map_header n)
  unfolding pack_map_begin
  Packs-map_begin n = Packs-header 16 0x80 0xde 0xdf n (omega arith) (or_80 n)

  pub Packs-byte_array_begin : (n : ℕ) → Packs (pack_byte_array_begin n) (bytes_header n)
  unfolding pack_byte_array_begin
  Packs-byte_array_begin n = Packs-header 32 0xa0 0xda 0xdb n (omega arith) (or_a0 n)
