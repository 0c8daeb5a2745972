-- ===== src/Expressions/Made/Operators.antt =====
-- expressions/mod.rs: what the builders of expressions on expressions return.
use aerospike_client_rust.Base.{ℕ, ℤ, List}
use aerospike_client_rust.Msgpack.Format.{IsPackable}
use aerospike_client_rust.Expressions.Filter.{FilterExpression, FilterExpressions, exp_list, new}
use aerospike_client_rust.Expressions.Values
use aerospike_client_rust.Expressions.Operators
use aerospike_client_rust.Expressions.WellFormed.{
  IsGiven, IsPackableValue, HasShape, IsCommand, IsExpression, AreExpressions, IsScope, IsBin,
}

pub data IsOperator : FilterExpression → Type 0 where
  regex_compare :
      (regex : List ℕ) (flags : ℤ) (bin : FilterExpression)
      → IsExpression bin
      → IsOperator (Operators.regex_compare regex flags bin)
  geo_compare :
      (left right : FilterExpression)
      → IsExpression left
      → IsExpression right
      → IsOperator (Operators.geo_compare left right)
  not : (exp : FilterExpression) → IsExpression exp → IsOperator (Operators.not exp)
  and : (exps : FilterExpressions) → AreExpressions exps → IsOperator (Operators.and exps)
  or : (exps : FilterExpressions) → AreExpressions exps → IsOperator (Operators.or exps)
  eq :
      (left right : FilterExpression)
      → IsExpression left
      → IsExpression right
      → IsOperator (Operators.eq left right)
  ne :
      (left right : FilterExpression)
      → IsExpression left
      → IsExpression right
      → IsOperator (Operators.ne left right)
  gt :
      (left right : FilterExpression)
      → IsExpression left
      → IsExpression right
      → IsOperator (Operators.gt left right)
  ge :
      (left right : FilterExpression)
      → IsExpression left
      → IsExpression right
      → IsOperator (Operators.ge left right)
  lt :
      (left right : FilterExpression)
      → IsExpression left
      → IsExpression right
      → IsOperator (Operators.lt left right)
  le :
      (left right : FilterExpression)
      → IsExpression left
      → IsExpression right
      → IsOperator (Operators.le left right)
  num_add : (exps : FilterExpressions) → AreExpressions exps → IsOperator (Operators.num_add exps)
  num_sub : (exps : FilterExpressions) → AreExpressions exps → IsOperator (Operators.num_sub exps)
  num_mul : (exps : FilterExpressions) → AreExpressions exps → IsOperator (Operators.num_mul exps)
  num_div : (exps : FilterExpressions) → AreExpressions exps → IsOperator (Operators.num_div exps)
  num_pow :
      (base exponent : FilterExpression)
      → IsExpression base
      → IsExpression exponent
      → IsOperator (Operators.num_pow base exponent)
  num_log :
      (num base : FilterExpression)
      → IsExpression num
      → IsExpression base
      → IsOperator (Operators.num_log num base)
  num_mod :
      (numerator denominator : FilterExpression)
      → IsExpression numerator
      → IsExpression denominator
      → IsOperator (Operators.num_mod numerator denominator)
  num_abs : (value : FilterExpression) → IsExpression value → IsOperator (Operators.num_abs value)
  num_floor : (num : FilterExpression) → IsExpression num → IsOperator (Operators.num_floor num)
  num_ceil : (num : FilterExpression) → IsExpression num → IsOperator (Operators.num_ceil num)
  to_int : (num : FilterExpression) → IsExpression num → IsOperator (Operators.to_int num)
  to_float : (num : FilterExpression) → IsExpression num → IsOperator (Operators.to_float num)
  int_and : (exps : FilterExpressions) → AreExpressions exps → IsOperator (Operators.int_and exps)
  int_xor : (exps : FilterExpressions) → AreExpressions exps → IsOperator (Operators.int_xor exps)
  int_not : (exp : FilterExpression) → IsExpression exp → IsOperator (Operators.int_not exp)
  int_lshift :
      (value shift : FilterExpression)
      → IsExpression value
      → IsExpression shift
      → IsOperator (Operators.int_lshift value shift)
  int_rshift :
      (value shift : FilterExpression)
      → IsExpression value
      → IsExpression shift
      → IsOperator (Operators.int_rshift value shift)
  int_arshift :
      (value shift : FilterExpression)
      → IsExpression value
      → IsExpression shift
      → IsOperator (Operators.int_arshift value shift)
  int_count : (exp : FilterExpression) → IsExpression exp → IsOperator (Operators.int_count exp)
  int_lscan :
      (value target : FilterExpression)
      → IsExpression value
      → IsExpression target
      → IsOperator (Operators.int_lscan value target)
  int_rscan :
      (value target : FilterExpression)
      → IsExpression value
      → IsExpression target
      → IsOperator (Operators.int_rscan value target)
  min : (exps : FilterExpressions) → AreExpressions exps → IsOperator (Operators.min exps)
  max : (exps : FilterExpressions) → AreExpressions exps → IsOperator (Operators.max exps)
  cond : (exps : FilterExpressions) → AreExpressions exps → IsOperator (Operators.cond exps)
  exp_let : (exps : FilterExpressions) → IsScope exps → IsOperator (Operators.exp_let exps)
  var : (name : List ℕ) → IsOperator (Operators.var name)
  bin_exists : (name : List ℕ) → IsOperator (Operators.bin_exists name)

pub operator-IsExpression : (e : FilterExpression) → IsOperator e → IsExpression e
unfolding Operators.regex_compare Operators.geo_compare Operators.not Operators.and Operators.or
    Operators.eq Operators.ne Operators.gt Operators.ge Operators.lt Operators.le Operators.num_add
    Operators.num_sub Operators.num_mul Operators.num_div Operators.num_pow Operators.num_log
    Operators.num_mod Operators.num_abs Operators.num_floor Operators.num_ceil Operators.to_int
    Operators.to_float Operators.int_and Operators.int_xor Operators.int_not Operators.int_lshift
    Operators.int_rshift Operators.int_arshift Operators.int_count Operators.int_lscan
    Operators.int_rscan Operators.min Operators.max Operators.cond Operators.exp_let Operators.var
    Operators.bin_exists new exp_list IsExpression IsCommand IsGiven IsPackableValue IsPackable
    HasShape AreExpressions IsBin Values.int_val Values.bin_type
operator-IsExpression _ (IsOperator.regex_compare _ _ _ h0) = (tt, tt, h0)
operator-IsExpression _ (IsOperator.geo_compare _ _ h0 h1) = (h0, (h1, tt))
operator-IsExpression _ (IsOperator.not _ h0) = (h0, tt)
operator-IsExpression _ (IsOperator.and _ h0) = h0
operator-IsExpression _ (IsOperator.or _ h0) = h0
operator-IsExpression _ (IsOperator.eq _ _ h0 h1) = (h0, (h1, tt))
operator-IsExpression _ (IsOperator.ne _ _ h0 h1) = (h0, (h1, tt))
operator-IsExpression _ (IsOperator.gt _ _ h0 h1) = (h0, (h1, tt))
operator-IsExpression _ (IsOperator.ge _ _ h0 h1) = (h0, (h1, tt))
operator-IsExpression _ (IsOperator.lt _ _ h0 h1) = (h0, (h1, tt))
operator-IsExpression _ (IsOperator.le _ _ h0 h1) = (h0, (h1, tt))
operator-IsExpression _ (IsOperator.num_add _ h0) = h0
operator-IsExpression _ (IsOperator.num_sub _ h0) = h0
operator-IsExpression _ (IsOperator.num_mul _ h0) = h0
operator-IsExpression _ (IsOperator.num_div _ h0) = h0
operator-IsExpression _ (IsOperator.num_pow _ _ h0 h1) = (h0, (h1, tt))
operator-IsExpression _ (IsOperator.num_log _ _ h0 h1) = (h0, (h1, tt))
operator-IsExpression _ (IsOperator.num_mod _ _ h0 h1) = (h0, (h1, tt))
operator-IsExpression _ (IsOperator.num_abs _ h0) = (h0, tt)
operator-IsExpression _ (IsOperator.num_floor _ h0) = (h0, tt)
operator-IsExpression _ (IsOperator.num_ceil _ h0) = (h0, tt)
operator-IsExpression _ (IsOperator.to_int _ h0) = (h0, tt)
operator-IsExpression _ (IsOperator.to_float _ h0) = (h0, tt)
operator-IsExpression _ (IsOperator.int_and _ h0) = h0
operator-IsExpression _ (IsOperator.int_xor _ h0) = h0
operator-IsExpression _ (IsOperator.int_not _ h0) = (h0, tt)
operator-IsExpression _ (IsOperator.int_lshift _ _ h0 h1) = (h0, (h1, tt))
operator-IsExpression _ (IsOperator.int_rshift _ _ h0 h1) = (h0, (h1, tt))
operator-IsExpression _ (IsOperator.int_arshift _ _ h0 h1) = (h0, (h1, tt))
operator-IsExpression _ (IsOperator.int_count _ h0) = (h0, tt)
operator-IsExpression _ (IsOperator.int_lscan _ _ h0 h1) = (h0, (h1, tt))
operator-IsExpression _ (IsOperator.int_rscan _ _ h0 h1) = (h0, (h1, tt))
operator-IsExpression _ (IsOperator.min _ h0) = h0
operator-IsExpression _ (IsOperator.max _ h0) = h0
operator-IsExpression _ (IsOperator.cond _ h0) = h0
operator-IsExpression _ (IsOperator.exp_let _ h0) = h0
operator-IsExpression _ (IsOperator.var _) = tt
operator-IsExpression _ (IsOperator.bin_exists _) = (tt, (tt, tt))
