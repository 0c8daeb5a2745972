-- ===== src/Value/Wire.antt =====
-- value.rs: `particle_type`, `estimate_size`, `write_to` and `write_key_bytes`, and the
-- payload of a value on the wire.
use aerospike_client_rust.Base.{
  ℕ, suc, ◌+◌, ◌^◌, arith, ◌≡◌, refl, sym, ap, List, [], ◌∷◌, length, if◌then◌else◌, as_unsigned,
}
use aerospike_client_rust.Outcome.{Outcome, ok, panic, pure, ◌>>=◌, lift}
use aerospike_client_rust.Buffer.{Buffer, M, Fits, append}
use aerospike_client_rust.Buffer.Endian.{Endian}
use aerospike_client_rust.Buffer.Writes.{
  write_i64, write_bool, write_f64, write_str, write_bytes, write_geo,
}
use aerospike_client_rust.Buffer.Building
use aerospike_client_rust.Buffer.Building.{Writes}
use aerospike_client_rust.Value.{FloatValue, Value}
use aerospike_client_rust.Value.Convert.{to_f64}
use aerospike_client_rust.Commands.ParticleType.{ParticleType}
use aerospike_client_rust.Msgpack.Pack.{dry_run, wet_run, dry_run-Packs, Writes-wet_run}
use aerospike_client_rust.Msgpack.Encoder.{pack_value}
use aerospike_client_rust.Msgpack.Format.{encode, IsPackable}
use aerospike_client_rust.Msgpack.Packed.Values.{pack_value-Packs}

unfoldable pub particle_type : Value → Outcome ParticleType
particle_type Value.nil = ok ParticleType.null
particle_type (Value.int z) = ok ParticleType.integer
particle_type (Value.uint n) = panic
particle_type (Value.float f) = ok ParticleType.float
particle_type (Value.string s) = ok ParticleType.string
particle_type (Value.blob bs) = ok ParticleType.blob
particle_type (Value.bool b) = ok ParticleType.bool
particle_type (Value.list vs) = ok ParticleType.list
particle_type (Value.hash_map es) = ok ParticleType.map
particle_type (Value.ordered_map es) = panic
particle_type (Value.geo_json s) = ok ParticleType.geojson
particle_type (Value.hll bs) = ok ParticleType.hll

module _ ⦃endian : Endian⦄ where
  open endian use {be64}

  unfoldable pub estimate_size : Value → Outcome ℕ
  estimate_size Value.nil = ok 0
  estimate_size (Value.int z) = ok 8
  estimate_size (Value.float f) = ok 8
  estimate_size (Value.uint n) = panic
  estimate_size (Value.string s) = ok (length s)
  estimate_size (Value.blob bs) = ok (length bs)
  estimate_size (Value.bool b) = ok 1
  estimate_size (Value.list vs) = dry_run (pack_value (Value.list vs))
  estimate_size (Value.hash_map es) = dry_run (pack_value (Value.hash_map es))
  estimate_size (Value.ordered_map es) = panic
  estimate_size (Value.geo_json s) = ok (1 + 2 + length s)
  estimate_size (Value.hll bs) = ok (length bs)

  unfoldable pub write_to : Value → M ℕ
  write_to Value.nil = pure 0
  write_to (Value.int z) = write_i64 z
  write_to (Value.uint n) = λ b. panic
  write_to (Value.bool b) = write_bool b
  write_to (Value.float f) = do bits ← lift (to_f64 f); write_f64 bits
  write_to (Value.string s) = write_str s
  write_to (Value.blob bs) = write_bytes bs
  write_to (Value.hll bs) = write_bytes bs
  write_to (Value.list vs) = wet_run (pack_value (Value.list vs))
  write_to (Value.hash_map es) = wet_run (pack_value (Value.hash_map es))
  write_to (Value.ordered_map es) = λ b. panic
  write_to (Value.geo_json s) = write_geo s

  -- The bytes that the hash of a key is fed with.
  unfoldable pub write_key_bytes : Value → Outcome (List ℕ)
  write_key_bytes (Value.int z) = ok (be64 (as_unsigned (2 ^ 64) z))
  write_key_bytes (Value.string s) = ok s
  write_key_bytes (Value.blob bs) = ok bs
  write_key_bytes _ = panic

  -- The bytes of a bin's value, without its type.
  unfoldable pub payload : Value → List ℕ
  payload Value.nil = []
  payload (Value.int z) = be64 (as_unsigned (2 ^ 64) z)
  payload (Value.uint n) = []
  payload (Value.bool b) = (if b then 1 else 0) ∷ []
  payload (Value.float (FloatValue.f64 bits)) = be64 bits
  payload (Value.float (FloatValue.f32 bits)) = []
  payload (Value.string s) = s
  payload (Value.blob bs) = bs
  payload (Value.hll bs) = bs
  payload (Value.list vs) = encode (Value.list vs)
  payload (Value.hash_map es) = encode (Value.hash_map es)
  payload (Value.ordered_map es) = []
  payload (Value.geo_json s) = 0 ∷ 0 ∷ 0 ∷ s

-- The values that a bin can hold: no unsigned integer, no single float, no ordered map.
unfoldable pub IsStorable : Value → Type 0
IsStorable (Value.uint n) = ⊥
IsStorable (Value.ordered_map es) = ⊥
IsStorable (Value.float (FloatValue.f32 bits)) = ⊥
IsStorable (Value.list vs) = IsPackable (Value.list vs)
IsStorable (Value.hash_map es) = IsPackable (Value.hash_map es)
IsStorable _ = Unit {0}

-- `value.particle_type() as u8` of a storable value.
unfoldable pub type_of : Value → ParticleType
type_of (Value.int z) = ParticleType.integer
type_of (Value.float f) = ParticleType.float
type_of (Value.string s) = ParticleType.string
type_of (Value.blob bs) = ParticleType.blob
type_of (Value.bool b) = ParticleType.bool
type_of (Value.list vs) = ParticleType.list
type_of (Value.hash_map es) = ParticleType.map
type_of (Value.geo_json s) = ParticleType.geojson
type_of (Value.hll bs) = ParticleType.hll
type_of _ = ParticleType.null

pub particle_type-storable : (v : Value) → IsStorable v → particle_type v ≡ ok (type_of v)
unfolding particle_type type_of IsStorable
particle_type-storable (Value.uint n) h = absurd h
particle_type-storable (Value.ordered_map es) h = absurd h
particle_type-storable _ h = refl

module _ ⦃endian : Endian⦄ where
  -- The estimate of a storable value is the number of the bytes of its payload.
  pub estimate_size-payload : (v : Value) → IsStorable v → estimate_size v ≡ ok (length (payload v))
  unfolding estimate_size payload IsStorable
  estimate_size-payload Value.nil h = refl
  estimate_size-payload (Value.int z) h = ap ok (sym (endian.length-be64 _))
  estimate_size-payload (Value.uint n) h = absurd h
  estimate_size-payload (Value.bool b) h = refl
  estimate_size-payload (Value.float (FloatValue.f64 bits)) h = ap ok (sym (endian.length-be64 _))
  estimate_size-payload (Value.float (FloatValue.f32 bits)) h = absurd h
  estimate_size-payload (Value.string s) h = refl
  estimate_size-payload (Value.blob bs) h = refl
  estimate_size-payload (Value.hll bs) h = refl
  estimate_size-payload (Value.list vs) h = dry_run-Packs (pack_value-Packs (Value.list vs) h)
  estimate_size-payload (Value.hash_map es) h =
      dry_run-Packs (pack_value-Packs (Value.hash_map es) h)
  estimate_size-payload (Value.ordered_map es) h = absurd h
  estimate_size-payload (Value.geo_json s) h =
      let e : 3 + length s ≡ suc (suc (suc (length s))) = omega arith in ap ok e

  pub write_to-Writes :
      (v : Value) → IsStorable v → Writes (write_to v) (length (payload v)) (payload v)
  unfolding write_to payload IsStorable to_f64
  write_to-Writes Value.nil h = Building.Writes-pure 0
  write_to-Writes (Value.int z) h =
      Building.Writes-result (Building.Writes-i64 z) (sym (endian.length-be64 _))
  write_to-Writes (Value.uint n) h = absurd h
  write_to-Writes (Value.bool b) h = Building.Writes-bool b
  write_to-Writes (Value.float (FloatValue.f64 bits)) h =
      Building.Writes->>= _ (Building.Writes-lift (ok bits) refl)
        (Building.Writes-result (Building.Writes-f64 bits) (sym (endian.length-be64 bits)))
  write_to-Writes (Value.float (FloatValue.f32 bits)) h = absurd h
  write_to-Writes (Value.string s) h = Building.Writes-str s
  write_to-Writes (Value.blob bs) h = Building.Writes-bytes bs
  write_to-Writes (Value.hll bs) h = Building.Writes-bytes bs
  write_to-Writes (Value.list vs) h = Writes-wet_run (pack_value-Packs (Value.list vs) h)
  write_to-Writes (Value.hash_map es) h = Writes-wet_run (pack_value-Packs (Value.hash_map es) h)
  write_to-Writes (Value.ordered_map es) h = absurd h
  write_to-Writes (Value.geo_json s) h =
      Building.Writes-result (Building.Writes-geo s) (omega arith)

  -- For a value that a bin can hold, and any buffer with room for its payload: the estimate is the
  -- number of the payload's bytes, the type code is that of the value, and `write_to` writes the
  -- payload at the offset, reports its length and changes nothing else.
  pub write_to-estimate_size :
      (v : Value) (b : Buffer)
      → IsStorable v
      → Fits b (length (payload v))
      → (estimate_size v ≡ ok (length (payload v)))
        × (particle_type v ≡ ok (type_of v))
        × (write_to v b ≡ ok (length (payload v), append b (payload v)))
  write_to-estimate_size v b h fits =
      (estimate_size-payload v h, particle_type-storable v h, (write_to-Writes v h).runs b fits)
