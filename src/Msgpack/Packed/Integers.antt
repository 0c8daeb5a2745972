-- ===== src/Msgpack/Packed/Integers.antt =====
-- msgpack/encoder.rs: `pack_integer` and `pack_u64` against the reference.
use aerospike_client_rust.Base.{
  ℕ, suc, ◌+◌, ◌-◌, ◌%◌, ◌^◌, ◌≤◌, ◌<◌, ◌≡◌, refl, ap, ◌∙◌, Bool, true, false, List, ltb, leb,
  if◌then◌else◌, bit_or, arith, ltb→lt, Bool-cases, inl, inr, ℤ, pos, negsuc, as_unsigned,
  as_signed,
}
use native.Mathlib.Nat.{mod-eq_of_lt}
use aerospike_client_rust.Buffer.Endian.{Endian}
use aerospike_client_rust.Buffer.Building
use aerospike_client_rust.Buffer.Building.{Writes}
use aerospike_client_rust.Msgpack.Pack.{Pack, Packs}
use aerospike_client_rust.Msgpack.Encoder.{
  pack_half_byte, pack_byte, pack_i16, pack_i32, pack_i64, pack_integer, pack_u64,
}
use aerospike_client_rust.Msgpack.Format.{encode_int, encode_uint}
use aerospike_client_rust.Msgpack.Packed.Words.{
  Packs-marked, Packs-half_byte, Packs-byte, unsigned-signed, or_e0, Packs-i16, Packs-i32,
  Packs-i64,
}

Packs-if :
    {p q : Pack} {bs cs : List ℕ} (b : Bool)
    → (b ≡ true → Packs p bs)
    → (b ≡ false → Packs q cs)
    → Packs (if b then p else q) (if b then bs else cs)
Packs-if true h k = h refl
Packs-if false h k = k refl

module _ ⦃endian : Endian⦄ where
  open endian use {be16, be32, be64}

  -- The arms that `pack_integer` takes, by the size of the number.
  integer_arms :
      (n : ℕ)
      → pack_integer (pos n) ≡ (
          if ltb n 128
          then pack_half_byte (n % 2 ^ 8)
          else if ltb n 32767
          then pack_i16 0xcd (as_signed (2 ^ 15) (n % 2 ^ 16))
          else if ltb n 2147483647
          then pack_i32 0xce (as_signed (2 ^ 31) (n % 2 ^ 32))
          else pack_i64 0xd3 (pos n))
  unfolding pack_integer
  integer_arms n = ground arith

  negative_arms :
      (n : ℕ)
      → pack_integer (negsuc n) ≡ (
          if ltb n 32
          then pack_half_byte (bit_or 0xe0 ((255 - n % 2 ^ 8 + 32) % 2 ^ 8))
          else if ltb n 128
          then pack_byte 0xd0 (255 - n % 2 ^ 8)
          else if ltb n 32768
          then pack_i16 0xd1 (as_signed (2 ^ 15) (as_unsigned (2 ^ 16) (negsuc n)))
          else if ltb n 2147483648
          then pack_i32 0xd2 (as_signed (2 ^ 31) (as_unsigned (2 ^ 32) (negsuc n)))
          else pack_i64 0xd3 (negsuc n))
  unfolding pack_integer
  negative_arms n = ground arith

  pack_positive : (n : ℕ) → Packs (pack_integer (pos n)) (encode_int (pos n))
  unfolding encode_int
  pack_positive n = rw (integer_arms n) (
      Packs-if (ltb n 128)
        (λ e. rw (small n 256 (ltb→lt n 128 e) (omega arith)) (Packs-half_byte n))
        λ _.
          Packs-if (ltb n 32767)
            (λ e. Packs-i16 0xcd _ (
              unsigned-signed (2 ^ 15) (n % 2 ^ 16) (omega arith)
              ∙ small n (2 ^ 16) (ltb→lt n 32767 e) (omega arith)))
            λ _.
              Packs-if (ltb n 2147483647)
                (λ e. Packs-i32 0xce _ (
                  unsigned-signed (2 ^ 31) (n % 2 ^ 32) (omega arith)
                  ∙ small n (2 ^ 32) (ltb→lt n 2147483647 e) (omega arith)))
                λ _. Packs-i64 0xd3 (pos n) refl)
    where
      small : (n m : ℕ) {k : ℕ} → n < k → k ≤ m → n % m ≡ n
      small n m h le = mod-eq_of_lt (omega arith)

  pack_negative : (n : ℕ) → Packs (pack_integer (negsuc n)) (encode_int (negsuc n))
  unfolding encode_int
  pack_negative n = rw (negative_arms n) (
      Packs-if (ltb n 32)
        (λ e.
          let lt : n < 32 = ltb→lt n 32 e in
          let m : (255 - n % 2 ^ 8 + 32) % 2 ^ 8 ≡ 31 - n = omega arith in
          let v : 0xe0 + (31 - n) ≡ 255 - n = omega arith in
          rw (m, or_e0 (31 - n) (omega arith), v) (Packs-half_byte (255 - n)))
        λ _.
          Packs-if (ltb n 128)
            (λ e.
              let m : n % 2 ^ 8 ≡ n = small n (2 ^ 8) (ltb→lt n 128 e) (omega arith) in
              rw m (Packs-byte 0xd0 (255 - n)))
            λ _.
              Packs-if (ltb n 32768)
                (λ e. Packs-i16 0xd1 _ (
                  unsigned-signed (2 ^ 15) _ (omega arith)
                  ∙ ap (λ x. 65535 - x) (small n (2 ^ 16) (ltb→lt n 32768 e) (omega arith))))
                λ _.
                  Packs-if (ltb n 2147483648)
                    (λ e. Packs-i32 0xd2 _ (
                      unsigned-signed (2 ^ 31) _ (omega arith)
                      ∙ ap (λ x. 4294967295 - x)
                          (small n (2 ^ 32) (ltb→lt n 2147483648 e) (omega arith))))
                    λ _. Packs-i64 0xd3 (negsuc n) refl)
    where
      small : (n m : ℕ) {k : ℕ} → n < k → k ≤ m → n % m ≡ n
      small n m h le = mod-eq_of_lt (omega arith)

  -- Every integer goes out in one of the forms of the reference.
  pub Packs-integer : (z : ℤ) → Packs (pack_integer z) (encode_int z)
  Packs-integer (pos n) = pack_positive n
  Packs-integer (negsuc n) = pack_negative n

  pub Packs-u64 : (n : ℕ) → Packs (pack_u64 n) (encode_uint n)
  unfolding pack_u64 encode_uint
  Packs-u64 n = elim (Bool-cases (ltb n (2 ^ 63))) [
    | inl e ↦
        let le : leb n (2 ^ 63 - 1) ≡ true = ground arith in rw (e, le) (Packs-integer (pos n))
    | inr e ↦
        let gt : leb n (2 ^ 63 - 1) ≡ false = ground arith in
        rw (e, gt) (Packs-marked 0xcf 9 (Building.Writes-u64 n) (ap suc (endian.length-be64 n)))
  ]
