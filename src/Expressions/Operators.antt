-- ===== src/Expressions/Operators.antt =====
-- expressions/mod.rs: the expressions on expressions, and the variables.
use aerospike_client_rust.Base.{ℕ, ℤ, pos, some, none, List, [], ◌∷◌}
use aerospike_client_rust.Value.{Value}
use aerospike_client_rust.Commands.ParticleType
use aerospike_client_rust.Commands.ParticleType.{ParticleType}
use aerospike_client_rust.Expressions.ExpOp.{ExpOp}
use aerospike_client_rust.Expressions.Filter.{
  FilterExpression, expression, OptionalBin, OptionalExps, FilterExpressions, exp_list,
  OptionalArguments, new,
}
use aerospike_client_rust.Expressions.Values.{bin_type, int_val}

unfoldable pub regex_compare : List ℕ → ℤ → FilterExpression → FilterExpression
regex_compare regex flags bin =
    new (some ExpOp.regex) (some (Value.string regex)) (OptionalBin.bin bin) (some flags) none
      OptionalExps.no_exps

unfoldable pub geo_compare : FilterExpression → FilterExpression → FilterExpression
geo_compare left right =
    new (some ExpOp.geo) none OptionalBin.no_bin none none
      (OptionalExps.exps (exp_list (left ∷ right ∷ [])))

unfoldable pub not : FilterExpression → FilterExpression
not exp =
    expression (some ExpOp.not) none OptionalBin.no_bin none none
      (OptionalExps.exps (exp_list (exp ∷ []))) OptionalArguments.no_arguments

unfoldable pub and : FilterExpressions → FilterExpression
and exps =
    expression (some ExpOp.and) none OptionalBin.no_bin none none (OptionalExps.exps exps)
      OptionalArguments.no_arguments

unfoldable pub or : FilterExpressions → FilterExpression
or exps =
    expression (some ExpOp.or) none OptionalBin.no_bin none none (OptionalExps.exps exps)
      OptionalArguments.no_arguments

unfoldable pub eq : FilterExpression → FilterExpression → FilterExpression
eq left right =
    expression (some ExpOp.eq) none OptionalBin.no_bin none none
      (OptionalExps.exps (exp_list (left ∷ right ∷ []))) OptionalArguments.no_arguments

unfoldable pub ne : FilterExpression → FilterExpression → FilterExpression
ne left right =
    expression (some ExpOp.ne) none OptionalBin.no_bin none none
      (OptionalExps.exps (exp_list (left ∷ right ∷ []))) OptionalArguments.no_arguments

unfoldable pub gt : FilterExpression → FilterExpression → FilterExpression
gt left right =
    expression (some ExpOp.gt) none OptionalBin.no_bin none none
      (OptionalExps.exps (exp_list (left ∷ right ∷ []))) OptionalArguments.no_arguments

unfoldable pub ge : FilterExpression → FilterExpression → FilterExpression
ge left right =
    expression (some ExpOp.ge) none OptionalBin.no_bin none none
      (OptionalExps.exps (exp_list (left ∷ right ∷ []))) OptionalArguments.no_arguments

unfoldable pub lt : FilterExpression → FilterExpression → FilterExpression
lt left right =
    expression (some ExpOp.lt) none OptionalBin.no_bin none none
      (OptionalExps.exps (exp_list (left ∷ right ∷ []))) OptionalArguments.no_arguments

unfoldable pub le : FilterExpression → FilterExpression → FilterExpression
le left right =
    expression (some ExpOp.le) none OptionalBin.no_bin none none
      (OptionalExps.exps (exp_list (left ∷ right ∷ []))) OptionalArguments.no_arguments

unfoldable pub num_add : FilterExpressions → FilterExpression
num_add exps =
    expression (some ExpOp.add) none OptionalBin.no_bin none none (OptionalExps.exps exps)
      OptionalArguments.no_arguments

unfoldable pub num_sub : FilterExpressions → FilterExpression
num_sub exps =
    expression (some ExpOp.sub) none OptionalBin.no_bin none none (OptionalExps.exps exps)
      OptionalArguments.no_arguments

unfoldable pub num_mul : FilterExpressions → FilterExpression
num_mul exps =
    expression (some ExpOp.mul) none OptionalBin.no_bin none none (OptionalExps.exps exps)
      OptionalArguments.no_arguments

unfoldable pub num_div : FilterExpressions → FilterExpression
num_div exps =
    expression (some ExpOp.div) none OptionalBin.no_bin none none (OptionalExps.exps exps)
      OptionalArguments.no_arguments

unfoldable pub num_pow : FilterExpression → FilterExpression → FilterExpression
num_pow base exponent =
    expression (some ExpOp.pow) none OptionalBin.no_bin none none
      (OptionalExps.exps (exp_list (base ∷ exponent ∷ []))) OptionalArguments.no_arguments

unfoldable pub num_log : FilterExpression → FilterExpression → FilterExpression
num_log num base =
    expression (some ExpOp.log) none OptionalBin.no_bin none none
      (OptionalExps.exps (exp_list (num ∷ base ∷ []))) OptionalArguments.no_arguments

unfoldable pub num_mod : FilterExpression → FilterExpression → FilterExpression
num_mod numerator denominator =
    expression (some ExpOp.num_mod) none OptionalBin.no_bin none none
      (OptionalExps.exps (exp_list (numerator ∷ denominator ∷ []))) OptionalArguments.no_arguments

unfoldable pub num_abs : FilterExpression → FilterExpression
num_abs value =
    expression (some ExpOp.abs) none OptionalBin.no_bin none none
      (OptionalExps.exps (exp_list (value ∷ []))) OptionalArguments.no_arguments

unfoldable pub num_floor : FilterExpression → FilterExpression
num_floor num =
    expression (some ExpOp.floor) none OptionalBin.no_bin none none
      (OptionalExps.exps (exp_list (num ∷ []))) OptionalArguments.no_arguments

unfoldable pub num_ceil : FilterExpression → FilterExpression
num_ceil num =
    expression (some ExpOp.ceil) none OptionalBin.no_bin none none
      (OptionalExps.exps (exp_list (num ∷ []))) OptionalArguments.no_arguments

unfoldable pub to_int : FilterExpression → FilterExpression
to_int num =
    expression (some ExpOp.to_int) none OptionalBin.no_bin none none
      (OptionalExps.exps (exp_list (num ∷ []))) OptionalArguments.no_arguments

unfoldable pub to_float : FilterExpression → FilterExpression
to_float num =
    expression (some ExpOp.to_float) none OptionalBin.no_bin none none
      (OptionalExps.exps (exp_list (num ∷ []))) OptionalArguments.no_arguments

unfoldable pub int_and : FilterExpressions → FilterExpression
int_and exps =
    expression (some ExpOp.int_and) none OptionalBin.no_bin none none (OptionalExps.exps exps)
      OptionalArguments.no_arguments

unfoldable pub int_xor : FilterExpressions → FilterExpression
int_xor exps =
    expression (some ExpOp.int_xor) none OptionalBin.no_bin none none (OptionalExps.exps exps)
      OptionalArguments.no_arguments

unfoldable pub int_not : FilterExpression → FilterExpression
int_not exp =
    expression (some ExpOp.int_not) none OptionalBin.no_bin none none
      (OptionalExps.exps (exp_list (exp ∷ []))) OptionalArguments.no_arguments

unfoldable pub int_lshift : FilterExpression → FilterExpression → FilterExpression
int_lshift value shift =
    expression (some ExpOp.int_lshift) none OptionalBin.no_bin none none
      (OptionalExps.exps (exp_list (value ∷ shift ∷ []))) OptionalArguments.no_arguments

unfoldable pub int_rshift : FilterExpression → FilterExpression → FilterExpression
int_rshift value shift =
    expression (some ExpOp.int_rshift) none OptionalBin.no_bin none none
      (OptionalExps.exps (exp_list (value ∷ shift ∷ []))) OptionalArguments.no_arguments

unfoldable pub int_arshift : FilterExpression → FilterExpression → FilterExpression
int_arshift value shift =
    expression (some ExpOp.int_arshift) none OptionalBin.no_bin none none
      (OptionalExps.exps (exp_list (value ∷ shift ∷ []))) OptionalArguments.no_arguments

unfoldable pub int_count : FilterExpression → FilterExpression
int_count exp =
    expression (some ExpOp.int_count) none OptionalBin.no_bin none none
      (OptionalExps.exps (exp_list (exp ∷ []))) OptionalArguments.no_arguments

unfoldable pub int_lscan : FilterExpression → FilterExpression → FilterExpression
int_lscan value target =
    expression (some ExpOp.int_lscan) none OptionalBin.no_bin none none
      (OptionalExps.exps (exp_list (value ∷ target ∷ []))) OptionalArguments.no_arguments

unfoldable pub int_rscan : FilterExpression → FilterExpression → FilterExpression
int_rscan value target =
    expression (some ExpOp.int_rscan) none OptionalBin.no_bin none none
      (OptionalExps.exps (exp_list (value ∷ target ∷ []))) OptionalArguments.no_arguments

unfoldable pub min : FilterExpressions → FilterExpression
min exps =
    expression (some ExpOp.min) none OptionalBin.no_bin none none (OptionalExps.exps exps)
      OptionalArguments.no_arguments

unfoldable pub max : FilterExpressions → FilterExpression
max exps =
    expression (some ExpOp.max) none OptionalBin.no_bin none none (OptionalExps.exps exps)
      OptionalArguments.no_arguments

unfoldable pub cond : FilterExpressions → FilterExpression
cond exps =
    expression (some ExpOp.cond) none OptionalBin.no_bin none none (OptionalExps.exps exps)
      OptionalArguments.no_arguments

unfoldable pub exp_let : FilterExpressions → FilterExpression
exp_let exps =
    expression (some ExpOp.exp_let) none OptionalBin.no_bin none none (OptionalExps.exps exps)
      OptionalArguments.no_arguments

unfoldable pub def : List ℕ → FilterExpression → FilterExpression
def name value =
    expression none (some (Value.string name)) OptionalBin.no_bin none none
      (OptionalExps.exps (exp_list (value ∷ []))) OptionalArguments.no_arguments

unfoldable pub var : List ℕ → FilterExpression
var name =
    expression (some ExpOp.var) (some (Value.string name)) OptionalBin.no_bin none none
      OptionalExps.no_exps OptionalArguments.no_arguments

unfoldable pub bin_exists : List ℕ → FilterExpression
bin_exists name = ne (bin_type name) (int_val (pos (ParticleType.code ParticleType.null)))
