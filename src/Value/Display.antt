-- ===== src/Value/Display.antt =====
-- value.rs: `as_string`, which is the `Display` of a value. How the standard library prints a
-- float, and the contents of a list or a map, is a parameter.
use aerospike_client_rust.Base.{
  ℕ, zero, suc, ◌+◌, ◌/◌, ◌%◌, List, [], ◌∷◌, ◌++◌, ltb, if◌then◌else◌, ℤ, pos, negsuc,
}
use aerospike_client_rust.Value.{FloatValue, Value, Values, Entries}

pub record Formatting : Type 0 where
  pub display_float : FloatValue → List ℕ
  pub debug_list : Values → List ℕ
  pub debug_map : Entries → List ℕ

-- The decimal digits of a number before `acc`; a number has at most as many as itself and one.
unfoldable pub digits : ℕ → ℕ → List ℕ → List ℕ
digits zero n acc = acc
digits (suc fuel) n acc =
    let more = digits fuel (n / 10) ((48 + n % 10) ∷ acc) in
    if ltb n 10 then (48 + n) ∷ acc else more

unfoldable pub decimal : ℕ → List ℕ
decimal n = digits (suc n) n []

unfoldable pub signed_decimal : ℤ → List ℕ
signed_decimal (pos n) = decimal n
signed_decimal (negsuc n) = 45 ∷ decimal (suc n)

-- `format!("{:?}", val)` of bytes: `[1, 2]`.
unfoldable pub debug_each : List ℕ → List ℕ
debug_each [] = 93 ∷ []
debug_each (x ∷ xs) = 44 ∷ 32 ∷ (decimal x ++ debug_each xs)

unfoldable pub debug_bytes : List ℕ → List ℕ
debug_bytes [] = 91 ∷ 93 ∷ []
debug_bytes (x ∷ xs) = 91 ∷ (decimal x ++ debug_each xs)

unfoldable pub as_string : ⦃formatting : Formatting⦄ → Value → List ℕ
as_string Value.nil = 60 ∷ 110 ∷ 117 ∷ 108 ∷ 108 ∷ 62 ∷ []
as_string (Value.int val) = signed_decimal val
as_string (Value.uint val) = decimal val
as_string (Value.bool val) =
    if val then 116 ∷ 114 ∷ 117 ∷ 101 ∷ [] else 102 ∷ 97 ∷ 108 ∷ 115 ∷ 101 ∷ []
as_string ⦃formatting⦄ (Value.float val) = formatting.display_float val
as_string (Value.string val) = val
as_string (Value.geo_json val) = val
as_string (Value.blob val) = debug_bytes val
as_string (Value.hll val) = debug_bytes val
as_string ⦃formatting⦄ (Value.list val) = formatting.debug_list val
as_string ⦃formatting⦄ (Value.hash_map val) = formatting.debug_map val
as_string ⦃formatting⦄ (Value.ordered_map val) = formatting.debug_map val
