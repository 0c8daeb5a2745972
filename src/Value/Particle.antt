-- ===== src/Value/Particle.antt =====
-- value.rs: `bytes_to_particle`, which reads the value of a bin from an answer.
use aerospike_client_rust.Base.{
  ℕ, ◌+◌, ◌-◌, ◌*◌, ◌^◌, List, [], ◌∷◌, none, if◌then◌else◌, ltb, leb, as_unsigned,
}
use aerospike_client_rust.Outcome.{Outcome, ok, panic, pure, ◌>>=◌, ◌>>◌, lift}
use aerospike_client_rust.Buffer.{M}
use aerospike_client_rust.Buffer.Endian.{Endian}
use aerospike_client_rust.Buffer.Reads.{
  skip, read_i16, read_i64, read_f64, read_str, read_blob, read_bool,
}
use aerospike_client_rust.Value.{Value}
use aerospike_client_rust.Value.Convert.{from_f64}
use aerospike_client_rust.Msgpack.Decoder.{unpack_value_list, unpack_value_map}
use aerospike_client_rust.Commands.ParticleType
use aerospike_client_rust.Commands.ParticleType.{ParticleType}

-- "A DIGEST, NOT IMPLEMENTED YET!" and "A LDT, NOT IMPLEMENTED YET!"
abbrev pub a_digest : List ℕ
a_digest =
    65 ∷ 32 ∷ 68 ∷ 73 ∷ 71 ∷ 69 ∷ 83 ∷ 84 ∷ 44 ∷ 32 ∷ 78 ∷ 79 ∷ 84 ∷ 32 ∷ 73 ∷ 77 ∷ 80 ∷ 76 ∷ 69
    ∷ 77 ∷ 69 ∷ 78 ∷ 84 ∷ 69 ∷ 68 ∷ 32 ∷ 89 ∷ 69 ∷ 84 ∷ 33 ∷ []

abbrev pub a_ldt : List ℕ
a_ldt =
    65 ∷ 32 ∷ 76 ∷ 68 ∷ 84 ∷ 44 ∷ 32 ∷ 78 ∷ 79 ∷ 84 ∷ 32 ∷ 73 ∷ 77 ∷ 80 ∷ 76 ∷ 69 ∷ 77 ∷ 69 ∷ 78
    ∷ 84 ∷ 69 ∷ 68 ∷ 32 ∷ 89 ∷ 69 ∷ 84 ∷ 33 ∷ []

-- `ncells * 8` on `usize`
unfoldable pub cells_size : ℕ → Outcome ℕ
cells_size ncells = if ltb (ncells * 8) (2 ^ 64) then ok (ncells * 8) else panic

-- `len - header_size - 3` on `usize`
unfoldable pub text_size : ℕ → ℕ → Outcome ℕ
text_size len header_size = if leb (header_size + 3) len then ok (len - header_size - 3) else panic

module _ ⦃endian : Endian⦄ where
  unfoldable pub read_geo_json : ℕ → M Value
  read_geo_json len = do
    skip 1
    ncells ← read_i16 none
    header_size ← lift (cells_size (as_unsigned (2 ^ 64) ncells))
    skip header_size
    text ← lift (text_size len header_size)
    val ← read_str text
    pure (Value.geo_json val)

  -- The arms on the particle type.
  unfoldable pub read_particle : ParticleType → ℕ → M Value
  read_particle ParticleType.null len = pure Value.nil
  read_particle ParticleType.integer len = do val ← read_i64 none; pure (Value.int val)
  read_particle ParticleType.float len = do val ← read_f64 none; pure (Value.float (from_f64 val))
  read_particle ParticleType.string len = do val ← read_str len; pure (Value.string val)
  read_particle ParticleType.geojson len = read_geo_json len
  read_particle ParticleType.blob len = do val ← read_blob len; pure (Value.blob val)
  read_particle ParticleType.list len = unpack_value_list
  read_particle ParticleType.map len = unpack_value_map
  read_particle ParticleType.digest len = pure (Value.string a_digest)
  read_particle ParticleType.ldt len = pure (Value.string a_ldt)
  read_particle ParticleType.hll len = do val ← read_blob len; pure (Value.hll val)
  read_particle ParticleType.bool len = do val ← read_bool len; pure (Value.bool val)

  unfoldable pub bytes_to_particle : ℕ → ℕ → M Value
  bytes_to_particle ptype len = do type ← lift (ParticleType.from ptype); read_particle type len
