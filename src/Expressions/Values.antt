-- ===== src/Expressions/Values.antt =====
-- expressions/mod.rs: the expressions of bins, of the record's metadata and of values.
use aerospike_client_rust.Base.{ℕ, ℤ, pos, Bool, some, none, List}
use aerospike_client_rust.Value.{Value, Values, Entries}
use aerospike_client_rust.Value.Convert.{from_f64}
use aerospike_client_rust.Expressions.ExpOp.{ExpOp}
use aerospike_client_rust.Expressions.ExpType
use aerospike_client_rust.Expressions.ExpType.{ExpType}
use aerospike_client_rust.Expressions.Filter.{
  FilterExpression, expression, OptionalBin, OptionalExps, OptionalArguments, new,
}

unfoldable pub key : ExpType → FilterExpression
key exp_type =
    new (some ExpOp.key) (some (Value.int (pos (ExpType.code exp_type)))) OptionalBin.no_bin none
      none OptionalExps.no_exps

unfoldable pub key_exists : FilterExpression
key_exists = new (some ExpOp.key_exists) none OptionalBin.no_bin none none OptionalExps.no_exps

unfoldable pub int_bin : List ℕ → FilterExpression
int_bin name =
    new (some ExpOp.bin) (some (Value.string name)) OptionalBin.no_bin none (some ExpType.int)
      OptionalExps.no_exps

unfoldable pub string_bin : List ℕ → FilterExpression
string_bin name =
    new (some ExpOp.bin) (some (Value.string name)) OptionalBin.no_bin none (some ExpType.string)
      OptionalExps.no_exps

unfoldable pub blob_bin : List ℕ → FilterExpression
blob_bin name =
    new (some ExpOp.bin) (some (Value.string name)) OptionalBin.no_bin none (some ExpType.blob)
      OptionalExps.no_exps

unfoldable pub float_bin : List ℕ → FilterExpression
float_bin name =
    new (some ExpOp.bin) (some (Value.string name)) OptionalBin.no_bin none (some ExpType.float)
      OptionalExps.no_exps

unfoldable pub geo_bin : List ℕ → FilterExpression
geo_bin name =
    new (some ExpOp.bin) (some (Value.string name)) OptionalBin.no_bin none (some ExpType.geo)
      OptionalExps.no_exps

unfoldable pub list_bin : List ℕ → FilterExpression
list_bin name =
    new (some ExpOp.bin) (some (Value.string name)) OptionalBin.no_bin none (some ExpType.list)
      OptionalExps.no_exps

unfoldable pub map_bin : List ℕ → FilterExpression
map_bin name =
    new (some ExpOp.bin) (some (Value.string name)) OptionalBin.no_bin none (some ExpType.map)
      OptionalExps.no_exps

unfoldable pub hll_bin : List ℕ → FilterExpression
hll_bin name =
    new (some ExpOp.bin) (some (Value.string name)) OptionalBin.no_bin none (some ExpType.hll)
      OptionalExps.no_exps

unfoldable pub bin_type : List ℕ → FilterExpression
bin_type name =
    new (some ExpOp.bin_type) (some (Value.string name)) OptionalBin.no_bin none none
      OptionalExps.no_exps

unfoldable pub set_name : FilterExpression
set_name = new (some ExpOp.set_name) none OptionalBin.no_bin none none OptionalExps.no_exps

unfoldable pub device_size : FilterExpression
device_size = new (some ExpOp.device_size) none OptionalBin.no_bin none none OptionalExps.no_exps

unfoldable pub last_update : FilterExpression
last_update = new (some ExpOp.last_update) none OptionalBin.no_bin none none OptionalExps.no_exps

unfoldable pub since_update : FilterExpression
since_update = new (some ExpOp.since_update) none OptionalBin.no_bin none none OptionalExps.no_exps

unfoldable pub void_time : FilterExpression
void_time = new (some ExpOp.void_time) none OptionalBin.no_bin none none OptionalExps.no_exps

unfoldable pub ttl : FilterExpression
ttl = new (some ExpOp.ttl) none OptionalBin.no_bin none none OptionalExps.no_exps

unfoldable pub is_tombstone : FilterExpression
is_tombstone = new (some ExpOp.is_tombstone) none OptionalBin.no_bin none none OptionalExps.no_exps

unfoldable pub digest_modulo : ℤ → FilterExpression
digest_modulo modulo =
    new (some ExpOp.digest_modulo) (some (Value.int modulo)) OptionalBin.no_bin none none
      OptionalExps.no_exps

unfoldable pub int_val : ℤ → FilterExpression
int_val val = new none (some (Value.int val)) OptionalBin.no_bin none none OptionalExps.no_exps

unfoldable pub bool_val : Bool → FilterExpression
bool_val val = new none (some (Value.bool val)) OptionalBin.no_bin none none OptionalExps.no_exps

unfoldable pub string_val : List ℕ → FilterExpression
string_val val =
    new none (some (Value.string val)) OptionalBin.no_bin none none OptionalExps.no_exps

unfoldable pub float_val : ℕ → FilterExpression
float_val val =
    new none (some (Value.float (from_f64 val))) OptionalBin.no_bin none none OptionalExps.no_exps

unfoldable pub blob_val : List ℕ → FilterExpression
blob_val val = new none (some (Value.blob val)) OptionalBin.no_bin none none OptionalExps.no_exps

unfoldable pub list_val : Values → FilterExpression
list_val val =
    new (some ExpOp.quoted) (some (Value.list val)) OptionalBin.no_bin none none
      OptionalExps.no_exps

unfoldable pub map_val : Entries → FilterExpression
map_val val = new none (some (Value.hash_map val)) OptionalBin.no_bin none none OptionalExps.no_exps

unfoldable pub geo_val : List ℕ → FilterExpression
geo_val val = new none (some (Value.string val)) OptionalBin.no_bin none none OptionalExps.no_exps

unfoldable pub nil : FilterExpression
nil = new none (some Value.nil) OptionalBin.no_bin none none OptionalExps.no_exps

unfoldable pub unknown : FilterExpression
unknown =
    expression (some ExpOp.unknown) none OptionalBin.no_bin none none OptionalExps.no_exps
      OptionalArguments.no_arguments
