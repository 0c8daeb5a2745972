-- ===== src/Tests/Crates.antt =====
-- Concrete functions for `byteorder`, `ripemd160` and the filter expressions: words by division,
-- a hash of the length of its input only, and texts as expressions.
use aerospike_client_rust.Base.{
  ℕ, zero, suc, ap, ◌+◌, ◌*◌, ◌/◌, ◌%◌, ◌^◌, ◌<◌, ◌≤◌, ◌≡◌, refl, List, [], ◌∷◌, length,
  length-append, arith,
}
use aerospike_client_rust.Buffer.Endian.{Endian}
use aerospike_client_rust.Key.{Ripemd160}
use aerospike_client_rust.Msgpack.Encoder.{pack_string}
use aerospike_client_rust.Msgpack.Format.{bytes_header, encode_bytes}
use aerospike_client_rust.Msgpack.Packed.Values.{Packs-string}
use aerospike_client_rust.Expressions.{Expressions}

abbrev digit : ℕ → ℕ → ℕ
digit v k = v / 256 ^ k % 256

abbrev pub join : ℕ → List ℕ → ℕ
join acc [] = acc
join acc (x ∷ xs) = join (acc * 256 + x) xs

abbrev word16 : ℕ → List ℕ
word16 v = digit v 1 ∷ digit v 0 ∷ []

abbrev word32 : ℕ → List ℕ
word32 v = digit v 3 ∷ digit v 2 ∷ digit v 1 ∷ digit v 0 ∷ []

abbrev word64 : ℕ → List ℕ
word64 v = digit v 7 ∷ digit v 6 ∷ digit v 5 ∷ digit v 4 ∷ word32 v

pub join-word16 : (v : ℕ) → v < 2 ^ 16 → join 0 (word16 v) ≡ v
join-word16 v h = omega arith

pub join-word32 : (v : ℕ) → v < 2 ^ 32 → join 0 (word32 v) ≡ v
join-word32 v h = omega arith

pub join-word64 : (v : ℕ) → v < 2 ^ 64 → join 0 (word64 v) ≡ v
join-word64 v h = omega arith

instance abbrev pub by_division : Endian
by_division = record {
  be16 = word16;
  be32 = word32;
  be64 = word64;
  le16 = λ v. digit v 0 ∷ digit v 1 ∷ [];
  from_be16 = join 0;
  from_be32 = join 0;
  from_be64 = join 0;
  length-be16 = λ v. refl;
  length-be32 = λ v. refl;
  length-be64 = λ v. refl;
  length-le16 = λ v. refl;
  from_be16-be16 = join-word16;
  from_be32-be32 = join-word32;
  from_be64-be64 = join-word64;
  from_be16-bytes = λ a b. omega arith;
}

abbrev pub pad : ℕ → List ℕ → List ℕ
pad zero bs = []
pad (suc n) [] = 0 ∷ pad n []
pad (suc n) (x ∷ xs) = x ∷ pad n xs

pub length-pad : (n : ℕ) (bs : List ℕ) → length (pad n bs) ≡ n
length-pad zero bs = refl
length-pad (suc n) [] = ap suc (length-pad n [])
length-pad (suc n) (x ∷ xs) = ap suc (length-pad n xs)

instance abbrev pub by_padding : Ripemd160
by_padding = record { hash = pad 20; length-hash = length-pad 20 }

pub encode_bytes-nonempty : (s : List ℕ) → 1 ≤ length (encode_bytes 3 s)
unfolding encode_bytes
encode_bytes-nonempty s =
    let front : List ℕ = bytes_header (length s + 1) in omega (arith, length-append front (3 ∷ s))

instance abbrev pub texts : Expressions
texts = record {
  FilterExpression = List ℕ;
  pack = pack_string;
  encoding = encode_bytes 3;
  IsPackable = λ s. Unit {0};
  pack-Packs = λ s h. Packs-string s;
  encoding-nonempty = λ s h. encode_bytes-nonempty s;
}
