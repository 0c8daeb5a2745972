-- ===== src/Value.antt =====
-- value.rs: the values of bins, keys and arguments. A string is the list of its bytes; a float is
-- its bit pattern, as in the source. A hash map is the list of its entries in the order in which
-- it is iterated; `Entries.insert` is `HashMap::insert`.
pub mod Wire
pub mod Convert
pub mod Particle
pub mod Restored
pub mod Display
use aerospike_client_rust.Base.{
  ℕ, zero, suc, ◌≡◌, Bool, true, false, List, ℤ, pos, ◌&&◌, if◌then◌else◌, ℕ_discrete,
}

pub data FloatValue : Type 0 where
  f32 : ℕ → FloatValue
  f64 : ℕ → FloatValue

-- A vector of values and a map's entries stand in the block, since they hold values.
mutual
  pub data Value : Type 0 where
    nil : Value
    bool : Bool → Value
    int : ℤ → Value
    uint : ℕ → Value
    float : FloatValue → Value
    string : List ℕ → Value
    blob : List ℕ → Value
    list : Values → Value
    hash_map : Entries → Value
    ordered_map : Entries → Value
    geo_json : List ℕ → Value
    hll : List ℕ → Value

  pub data Values : Type 0 where
    no_values : Values
    values : Value → Values → Values

  pub data Entries : Type 0 where
    no_entries : Entries
    entry : Value → Value → Entries → Entries

unfoldable pub length_values : Values → ℕ
length_values no_values = 0
length_values (values v vs) = suc (length_values vs)

unfoldable pub length_entries : Entries → ℕ
length_entries no_entries = 0
length_entries (entry k v es) = suc (length_entries es)

unfoldable pub is_nil : Value → Bool
is_nil nil = true
is_nil _ = false

pub ℤ-discrete : Discrete ℤ
ℤ-discrete = hlevel ℕ_discrete

pub Value-discrete : Discrete Value
Value-discrete = hlevel (ℕ_discrete, ℤ-discrete)
