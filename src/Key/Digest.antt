-- ===== src/Key/Digest.antt =====
-- key.rs: the keys that `Key::new` makes of the supported types of user keys.
use aerospike_client_rust.Base.{
  ℕ, ◌-◌, ◌%◌, ◌^◌, ◌≡◌, refl, Bool, true, false, List, [], ◌∷◌, ◌++◌, some, pos, negsuc,
}
use aerospike_client_rust.Commands.ParticleType
use aerospike_client_rust.Outcome.{ok}
use aerospike_client_rust.Buffer.Endian.{Endian}
use aerospike_client_rust.Value.{Value}
use aerospike_client_rust.Value.Wire.{particle_type, write_key_bytes, IsStorable}
use aerospike_client_rust.Key.{Ripemd160, Key, digest_of, compute_digest, new}
use aerospike_client_rust.Commands.Built.Layout.{IsKey, IsUserKey}

-- The types of user keys that the digest is defined for.
unfoldable pub IsKeyValue : Value → Type 0
IsKeyValue (Value.int z) = Unit {0}
IsKeyValue (Value.string s) = Unit {0}
IsKeyValue (Value.blob bs) = Unit {0}
IsKeyValue _ = ⊥

module _ ⦃endian : Endian⦄ where
  -- What is hashed of a user key: the number of its type, and an integer as eight bytes, the high
  -- one first, in two's complement, a text or bytes as they are.
  unfoldable pub hashed_key : Value → List ℕ
  hashed_key (Value.int (pos n)) = 1 ∷ endian.be64 (n % 2 ^ 64)
  hashed_key (Value.int (negsuc n)) = 1 ∷ endian.be64 (2 ^ 64 - 1 - n % 2 ^ 64)
  hashed_key (Value.string s) = 3 ∷ s
  hashed_key (Value.blob bs) = 4 ∷ bs
  hashed_key _ = []

module _ ⦃endian : Endian⦄ ⦃ripemd : Ripemd160⦄ where
  digest_of-hash :
      (set_name : List ℕ) (v : Value)
      → IsKeyValue v
      → digest_of set_name v ≡ ok (ripemd.hash (set_name ++ hashed_key v))
  unfolding digest_of particle_type write_key_bytes IsKeyValue hashed_key ParticleType.code
  digest_of-hash set_name (Value.int (pos n)) h = refl
  digest_of-hash set_name (Value.int (negsuc n)) h = refl
  digest_of-hash set_name (Value.string s) h = refl
  digest_of-hash set_name (Value.blob bs) h = refl
  digest_of-hash set_name Value.nil h = absurd h
  digest_of-hash set_name (Value.uint n) h = absurd h
  digest_of-hash set_name (Value.bool b) h = absurd h
  digest_of-hash set_name (Value.float f) h = absurd h
  digest_of-hash set_name (Value.hll bs) h = absurd h
  digest_of-hash set_name (Value.list vs) h = absurd h
  digest_of-hash set_name (Value.hash_map es) h = absurd h
  digest_of-hash set_name (Value.ordered_map es) h = absurd h
  digest_of-hash set_name (Value.geo_json s) h = absurd h

  IsKeyValue-IsStorable : (v : Value) → IsKeyValue v → IsStorable v
  unfolding IsKeyValue IsStorable
  IsKeyValue-IsStorable (Value.int z) h = tt
  IsKeyValue-IsStorable (Value.string s) h = tt
  IsKeyValue-IsStorable (Value.blob bs) h = tt
  IsKeyValue-IsStorable Value.nil h = absurd h
  IsKeyValue-IsStorable (Value.uint n) h = absurd h
  IsKeyValue-IsStorable (Value.bool b) h = absurd h
  IsKeyValue-IsStorable (Value.float f) h = absurd h
  IsKeyValue-IsStorable (Value.hll bs) h = absurd h
  IsKeyValue-IsStorable (Value.list vs) h = absurd h
  IsKeyValue-IsStorable (Value.hash_map es) h = absurd h
  IsKeyValue-IsStorable (Value.ordered_map es) h = absurd h
  IsKeyValue-IsStorable (Value.geo_json s) h = absurd h

  user_key_lem : (v : Value) → IsKeyValue v → (send_key : Bool) → IsUserKey send_key (some v)
  unfolding IsUserKey
  user_key_lem v h true = IsKeyValue-IsStorable v h
  user_key_lem v h false = tt

  new-ok :
      (namespace set_name : List ℕ) (v : Value) (digest : List ℕ)
      → digest_of set_name v ≡ ok digest
      → new namespace set_name v
        ≡ ok (record {
          namespace = namespace;
          set_name = set_name;
          user_key = some v;
          digest = digest;
        })
  unfolding new compute_digest
  new-ok namespace set_name v digest e = rw (e, new, compute_digest) refl

  -- A key made of an integer, a text or bytes has the namespace, the set and the user key that it
  -- was made of; its digest is the hash of the name of the set, the number of the key's type and the
  -- key's bytes, an integer as eight of them; and it is one that a command can send, with the user
  -- key or without.
  pub new-IsKey :
      (namespace set_name : List ℕ) (v : Value)
      → IsKeyValue v
      → (key : Key) × (new namespace set_name v ≡ ok key)
        × (key.namespace ≡ namespace)
        × (key.set_name ≡ set_name)
        × (key.user_key ≡ some v)
        × (key.digest ≡ ripemd.hash (set_name ++ hashed_key v))
        × ((send_key : Bool) → IsKey key send_key)
  unfolding IsKey
  new-IsKey namespace set_name v h =
      let digest : List ℕ = ripemd.hash (set_name ++ hashed_key v) in
      let key : Key = record {
        namespace = namespace;
        set_name = set_name;
        user_key = some v;
        digest = digest;
      } in
      (
        key,
        new-ok namespace set_name v digest (digest_of-hash set_name v h),
        refl,
        refl,
        refl,
        refl,
        λ send_key. (ripemd.length-hash (set_name ++ hashed_key v), user_key_lem v h send_key),
      )
