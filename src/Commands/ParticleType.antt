-- ===== src/Commands/ParticleType.antt =====
-- commands/particle_type.rs: the server's codes for the types of bin values.
use aerospike_client_rust.Base.{ℕ, ◌≡◌, refl, ◌==◌, if◌then◌else◌}
use aerospike_client_rust.Outcome.{Outcome, ok, panic}

pub data ParticleType : Type 0 where
  null integer float string blob digest bool hll map list ldt geojson : ParticleType

-- `particle_type as u8`
unfoldable pub code : ParticleType → ℕ
code null = 0
code integer = 1
code float = 2
code string = 3
code blob = 4
code digest = 6
code bool = 17
code hll = 18
code map = 19
code list = 20
code ldt = 21
code geojson = 23

-- `ParticleType::from(u8)`; an unknown code is `unreachable!`.
unfoldable pub from : ℕ → Outcome ParticleType
from val =
    if val == 0
    then ok null
    else if val == 1
    then ok integer
    else if val == 2
    then ok float
    else if val == 3
    then ok string
    else if val == 4
    then ok blob
    else if val == 6
    then ok digest
    else if val == 17
    then ok bool
    else if val == 18
    then ok hll
    else if val == 19
    then ok map
    else if val == 20
    then ok list
    else if val == 21
    then ok ldt
    else if val == 23
    then ok geojson
    else panic

pub from-code : (t : ParticleType) → from (code t) ≡ ok t
unfolding from code
from-code null = refl
from-code _ = refl
