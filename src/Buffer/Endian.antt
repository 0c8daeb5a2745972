-- ===== src/Buffer/Endian.antt =====
-- The operations of the crate `byteorder` that the client calls, with what its documentation
-- says of them: a write fills as many bytes as the word has, a read gives the word back,
-- and the first of two bytes is the more significant one.
use aerospike_client_rust.Base.{ℕ, ◌+◌, ◌*◌, ◌^◌, ◌<◌, ◌≡◌, List, [], ◌∷◌, length}

pub record Endian : Type 0 where
  pub be16 : ℕ → List ℕ
  pub be32 : ℕ → List ℕ
  pub be64 : ℕ → List ℕ
  pub le16 : ℕ → List ℕ
  pub from_be16 : List ℕ → ℕ
  pub from_be32 : List ℕ → ℕ
  pub from_be64 : List ℕ → ℕ
  pub length-be16 : (v : ℕ) → length (be16 v) ≡ 2
  pub length-be32 : (v : ℕ) → length (be32 v) ≡ 4
  pub length-be64 : (v : ℕ) → length (be64 v) ≡ 8
  pub length-le16 : (v : ℕ) → length (le16 v) ≡ 2
  pub from_be16-be16 : (v : ℕ) → v < 2 ^ 16 → from_be16 (be16 v) ≡ v
  pub from_be32-be32 : (v : ℕ) → v < 2 ^ 32 → from_be32 (be32 v) ≡ v
  pub from_be64-be64 : (v : ℕ) → v < 2 ^ 64 → from_be64 (be64 v) ≡ v
  pub from_be16-bytes : (a b : ℕ) → from_be16 (a ∷ b ∷ []) ≡ a * 2 ^ 8 + b
