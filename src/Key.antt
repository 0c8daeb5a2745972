-- ===== src/Key.antt =====
-- key.rs: the key of a record and its digest. RIPEMD-160 is the crate `ripemd160`: a hash of the
-- bytes that it was fed, one call after the other, of twenty bytes.
pub mod Digest
use aerospike_client_rust.Base.{
  ℕ, ◌+◌, ◌≡◌, refl, ap, List, [], ◌∷◌, ◌++◌, Option, none, some, length, replicate,
}
use aerospike_client_rust.Outcome.{Outcome, ok, err, panic, exhausted}
use aerospike_client_rust.Buffer.Endian.{Endian}
use aerospike_client_rust.Value.{Value}
use aerospike_client_rust.Value.Wire.{particle_type, write_key_bytes}
use aerospike_client_rust.Commands.ParticleType
use aerospike_client_rust.Commands.ParticleType.{ParticleType}

pub record Ripemd160 : Type 0 where
  pub hash : List ℕ → List ℕ
  pub length-hash : (bs : List ℕ) → length (hash bs) ≡ 20

pub record Key : Type 0 where
  pub namespace : List ℕ
  pub set_name : List ℕ
  pub user_key : Option Value
  pub digest : List ℕ

module _ ⦃endian : Endian⦄ ⦃ripemd : Ripemd160⦄ where
  -- The type's code and the key's bytes go into the hash behind the name of the set.
  unfoldable pub digest_of : List ℕ → Value → Outcome (List ℕ)
  digest_of set_name user_key = elim (particle_type user_key) [
    | ok type ↦ elim (write_key_bytes user_key) [
      | ok bytes ↦ ok (ripemd.hash (set_name ++ (ParticleType.code type ∷ bytes)))
      | err e ↦ err e
      | panic ↦ panic
      | exhausted ↦ exhausted
    ]
    | err e ↦ err e
    | panic ↦ panic
    | exhausted ↦ exhausted
  ]

  unfoldable pub compute_digest : Key → Outcome Key
  compute_digest key = elim key.user_key [
    | some user_key ↦ elim (digest_of key.set_name user_key) [
      | ok digest ↦ ok (record key { digest = digest })
      | err e ↦ err e
      | panic ↦ panic
      | exhausted ↦ exhausted
    ]
    | none ↦ panic
  ]

  unfoldable pub new : List ℕ → List ℕ → Value → Outcome Key
  new namespace set_name key = compute_digest (record {
    namespace = namespace;
    set_name = set_name;
    user_key = some key;
    digest = replicate 20 0;
  })
