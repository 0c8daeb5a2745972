-- ===== src/Msgpack/RoundTrip/Integers.antt =====
-- msgpack/decoder.rs: the arms of `unpack_value` for integers, on each form of the encoder.
use aerospike_client_rust.Base.{
  ℕ, ◌-◌, ◌*◌, ◌%◌, ◌^◌, ◌<◌, ◌≡◌, refl, Bool, true, false, List, ◌∷◌, ltb, if◌then◌else◌, arith,
  ltb→lt, Bool-cases, inl, inr, ℤ, pos, negsuc, as_signed, IsI64,
}
use native.Mathlib.Nat.{mod-eq_of_lt}
use aerospike_client_rust.Outcome.{pure, ◌>>=◌}
use aerospike_client_rust.Buffer.{M}
use aerospike_client_rust.Buffer.Endian.{Endian}
use aerospike_client_rust.Buffer.Parsing
use aerospike_client_rust.Buffer.Parsing.{Reads, Reads->>=, Reads-eq}
use aerospike_client_rust.Value.{Value}
use aerospike_client_rust.Msgpack.Decoder.{unpack_type, unpack_one}
use aerospike_client_rust.Msgpack.Format.{encode_int, encode_uint}
use aerospike_client_rust.Msgpack.Canonical.{canonical}
use aerospike_client_rust.Msgpack.RoundTrip.Words.{Reads-tag, type_small, type_negative}

Reads-if :
    {A : Type 0} {m : M A} {a : A} {bs cs : List ℕ} (b : Bool)
    → (b ≡ true → Reads m a bs)
    → (b ≡ false → Reads m a cs)
    → Reads m a (if b then bs else cs)
Reads-if true h k = h refl
Reads-if false h k = k refl

-- The pattern of a negative number, read as signed.
signed_negative : (half n : ℕ) → n < half → as_signed half (2 * half - 1 - n) ≡ negsuc n
signed_negative half n h =
    let neg : ltb (2 * half - 1 - n) half ≡ false = ground arith in
    let e : 2 * half - 1 - (2 * half - 1 - n) ≡ n = omega arith in rw (neg, e) refl

signed_positive : (half n : ℕ) → n < half → as_signed half n ≡ pos n
signed_positive half n h = let small : ltb n half ≡ true = ground arith in rw small refl

module _ ⦃endian : Endian⦄ (unpack : M Value) where
  open endian use {be16, be32, be64}

  -- A signed word behind its tag, for the number that its pattern stands for.
  Reads-signed :
      {m : M ℤ} {z z' : ℤ} {bs : List ℕ} (t : ℕ)
      → unpack_type unpack t ≡ (m >>= λ x. pure (Value.int x))
      → Reads m z bs
      → z ≡ z'
      → Reads (unpack_one unpack) (Value.int z') (t ∷ bs)
  Reads-signed {bs = bs} t e r p = Reads-tag unpack t (rw (e, ← p) (Parsing.Reads-map Value.int r))

  Reads-positive :
      (n : ℕ) → n < 2 ^ 63 → Reads (unpack_one unpack) (Value.int (pos n)) (encode_int (pos n))
  unfolding encode_int unpack_type
  Reads-positive n h =
      Reads-if (ltb n 128)
        (λ e.
          Reads-tag unpack n
            (rw (type_small unpack n (ltb→lt n 128 e)) (Parsing.Reads-pure (Value.int (pos n)))))
        λ _.
          Reads-if (ltb n 32767)
            (λ e. Reads-tag unpack 0xcd (
              Parsing.Reads-map (λ x. Value.int (pos x))
                (Parsing.Reads-u16 n (omega (arith, ltb→lt n 32767 e)))))
            λ _.
              Reads-if (ltb n 2147483647)
                (λ e. Reads-tag unpack 0xce (
                  Parsing.Reads-map (λ x. Value.int (pos x))
                    (Parsing.Reads-u32 n (omega (arith, ltb→lt n 2147483647 e)))))
                λ _.
                  let m : n % 2 ^ 64 ≡ n = mod-eq_of_lt (omega arith) in
                  rw m (
                    Reads-signed 0xd3 refl (Parsing.Reads-i64 n (omega arith))
                      (signed_positive (2 ^ 63) n h))

  Reads-negative :
      (n : ℕ)
      → n < 2 ^ 63
      → Reads (unpack_one unpack) (Value.int (negsuc n)) (encode_int (negsuc n))
  unfolding encode_int unpack_type
  Reads-negative n h =
      Reads-if (ltb n 32)
        (λ e.
          Reads-tag unpack (255 - n) (
            rw (type_negative unpack n (ltb→lt n 32 e))
              (Parsing.Reads-pure (Value.int (negsuc n)))))
        λ _.
          Reads-if (ltb n 128)
            (λ e.
              Reads-signed 0xd0 refl (Parsing.Reads-i8 (255 - n))
                (signed_negative (2 ^ 7) n (ltb→lt n 128 e)))
            λ _.
              Reads-if (ltb n 32768)
                (λ e.
                  Reads-signed 0xd1 refl (Parsing.Reads-i16 (65535 - n) (omega arith))
                    (signed_negative (2 ^ 15) n (ltb→lt n 32768 e)))
                λ _.
                  Reads-if (ltb n 2147483648)
                    (λ e.
                      Reads-signed 0xd2 refl (Parsing.Reads-i32 (4294967295 - n) (omega arith))
                        (signed_negative (2 ^ 31) n (ltb→lt n 2147483648 e)))
                    λ _.
                      let m : n % 2 ^ 64 ≡ n = mod-eq_of_lt (omega arith) in
                      rw m (
                        Reads-signed 0xd3 refl (Parsing.Reads-i64 (2 ^ 64 - 1 - n) (omega arith))
                          (signed_negative (2 ^ 63) n h))

  pub Reads-int : (z : ℤ) → IsI64 z → Reads (unpack_one unpack) (Value.int z) (encode_int z)
  Reads-int (pos n) h = Reads-positive n h
  Reads-int (negsuc n) h = Reads-negative n h

  pub Reads-uint :
      (n : ℕ) → n < 2 ^ 64 → Reads (unpack_one unpack) (canonical (Value.uint n)) (encode_uint n)
  unfolding encode_uint canonical unpack_type
  Reads-uint n h = elim (Bool-cases (ltb n (2 ^ 63))) [
    | inl e ↦ rw e (Reads-positive n (ltb→lt n (2 ^ 63) e))
    | inr e ↦ rw e (Reads-tag unpack 0xcf (Parsing.Reads-map Value.uint (Parsing.Reads-u64 n h)))
  ]
