-- ===== src/Expressions/WellFormed.antt =====
-- expressions/mod.rs: which filter expressions stand for one tree. The fields that an operation
-- unwraps are given, a definition stands only before the last expression of a `Let`, and a call
-- has one context at most.
use aerospike_client_rust.Base.{Option, none, some, ◌∷◌, ℤ}
use aerospike_client_rust.Value.{Value}
use aerospike_client_rust.Msgpack.Format.{IsPackable}
use aerospike_client_rust.Msgpack.Packed.Cdt.{ContextsPackable}
use aerospike_client_rust.Expressions.ExpOp.{ExpOp}
use aerospike_client_rust.Expressions.ExpType.{ExpType}
use aerospike_client_rust.Expressions.Filter.{
  FilterExpression, expression, OptionalBin, no_bin, bin, no_exps, exps, FilterExpressions,
  end_exps, exp, OptionalArguments, no_arguments, arguments, ExpressionArguments, end_arguments,
  argument, value, filter_expression, context,
}

unfoldable pub IsGiven : {A : Type 0} → Option A → Type 0
IsGiven none = ⊥
IsGiven (some a) = Unit {0}

unfoldable pub IsPackableValue : Option Value → Type 0
IsPackableValue none = ⊥
IsPackableValue (some v) = IsPackable v

unfoldable pub HasNoContext : ExpressionArguments → Type 0
HasNoContext end_arguments = Unit {0}
HasNoContext (argument (context (c ∷ ctx)) args) = ⊥
HasNoContext (argument _ args) = HasNoContext args

unfoldable pub HasOneContext : ExpressionArguments → Type 0
HasOneContext end_arguments = Unit {0}
HasOneContext (argument (context (c ∷ ctx)) args) = ContextsPackable (c ∷ ctx) × HasNoContext args
HasOneContext (argument _ args) = HasOneContext args

-- `Scope` is asked of a `Let`, and `All` of every other operation on expressions.
unfoldable pub HasShape : ExpOp → Type 0 → Type 0 → Type 0
HasShape ExpOp.exp_let Scope All = Scope
HasShape _ Scope All = All

unfoldable pub IsCommand :
    ExpOp → Option Value → Type 0 → Option ℤ → Option ExpType → Type 0 → Type 0
IsCommand ExpOp.regex val OnBin flags ty Args = IsGiven flags × IsGiven val × OnBin
IsCommand ExpOp.call val OnBin flags ty Args = IsGiven ty × IsGiven flags × Args × OnBin
IsCommand ExpOp.bin val OnBin flags ty Args = IsGiven ty × IsGiven val
IsCommand ExpOp.bin_type val OnBin flags ty Args = IsGiven val
IsCommand ExpOp.var val OnBin flags ty Args = IsGiven val
IsCommand cmd (some v) OnBin flags ty Args = IsPackable v
IsCommand cmd none OnBin flags ty Args = Unit {0}

unfoldable mutual
  pub IsExpression : FilterExpression → Type 0
  IsExpression (expression cmd (some val) b flags ty (exps es) args) = ⊥
  IsExpression (expression none none b flags ty (exps es) args) = ⊥
  IsExpression (expression (some cmd) none b flags ty (exps es) args) =
      HasShape cmd (IsScope es) (AreExpressions es)
  IsExpression (expression (some cmd) val b flags ty no_exps args) =
      IsCommand cmd val (IsBin b) flags ty (AreArguments val args)
  IsExpression (expression none val b flags ty no_exps args) = IsPackableValue val

  pub IsDefinition : FilterExpression → Type 0
  IsDefinition (expression cmd (some val) b flags ty (exps es) args) = IsFirst es
  IsDefinition (expression cmd none b flags ty (exps es) args) = ⊥
  IsDefinition (expression cmd val b flags ty no_exps args) = ⊥

  pub IsFirst : FilterExpressions → Type 0
  IsFirst end_exps = ⊥
  IsFirst (exp e es) = IsExpression e

  pub AreExpressions : FilterExpressions → Type 0
  AreExpressions end_exps = Unit {0}
  AreExpressions (exp e es) = IsExpression e × AreExpressions es

  pub IsScope : FilterExpressions → Type 0
  IsScope end_exps = ⊥
  IsScope (exp e end_exps) = IsExpression e
  IsScope (exp e (exp f es)) = IsDefinition e × IsScope (exp f es)

  pub IsBin : OptionalBin → Type 0
  IsBin no_bin = ⊥
  IsBin (bin e) = IsExpression e

  pub AreArguments : Option Value → OptionalArguments → Type 0
  AreArguments val no_arguments = IsPackableValue val
  AreArguments val (arguments args) = HasOneContext args × EachIsArgument args

  pub EachIsArgument : ExpressionArguments → Type 0
  EachIsArgument end_arguments = Unit {0}
  EachIsArgument (argument (value v) args) = IsPackable v × EachIsArgument args
  EachIsArgument (argument (filter_expression e) args) = IsExpression e × EachIsArgument args
  EachIsArgument (argument (context ctx) args) = EachIsArgument args
