-- ===== src/Expressions/ExpType.antt =====
-- expressions/mod.rs: the types of the values of filter expressions.
use aerospike_client_rust.Base.{ℕ}

pub data ExpType : Type 0 where
  nil bool int string list map blob float geo hll : ExpType

-- `exp_type as i64`
unfoldable pub code : ExpType → ℕ
code nil = 0
code bool = 1
code int = 2
code string = 3
code list = 4
code map = 5
code blob = 6
code float = 7
code geo = 8
code hll = 9
