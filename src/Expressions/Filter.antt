-- ===== src/Expressions/Filter.antt =====
-- expressions/mod.rs: filter expressions. An expression holds expressions in its optional parts
-- and in its lists, so these are types of their own.
use aerospike_client_rust.Base.{ℕ, suc, Option, List, [], ◌∷◌, ℤ}
use aerospike_client_rust.Value.{Value}
use aerospike_client_rust.Operations.{CdtContext}
use aerospike_client_rust.Expressions.ExpOp.{ExpOp}
use aerospike_client_rust.Expressions.ExpType.{ExpType}

-- The fields of `FilterExpression` in the order of the source: `cmd`, `val`, `bin`, `flags`,
-- `module`, `exps` and `arguments`.
mutual
  pub data FilterExpression : Type 0 where
    expression :
        Option ExpOp
        → Option Value
        → OptionalBin
        → Option ℤ
        → Option ExpType
        → OptionalExps
        → OptionalArguments
        → FilterExpression

  pub data OptionalBin : Type 0 where
    no_bin : OptionalBin
    bin : FilterExpression → OptionalBin

  pub data OptionalExps : Type 0 where
    no_exps : OptionalExps
    exps : FilterExpressions → OptionalExps

  pub data FilterExpressions : Type 0 where
    end_exps : FilterExpressions
    exp : FilterExpression → FilterExpressions → FilterExpressions

  pub data OptionalArguments : Type 0 where
    no_arguments : OptionalArguments
    arguments : ExpressionArguments → OptionalArguments

  pub data ExpressionArguments : Type 0 where
    end_arguments : ExpressionArguments
    argument : ExpressionArgument → ExpressionArguments → ExpressionArguments

  pub data ExpressionArgument : Type 0 where
    value : Value → ExpressionArgument
    filter_expression : FilterExpression → ExpressionArgument
    context : List CdtContext → ExpressionArgument

unfoldable pub length_exps : FilterExpressions → ℕ
length_exps end_exps = 0
length_exps (exp e es) = suc (length_exps es)

unfoldable pub exp_list : List FilterExpression → FilterExpressions
exp_list [] = end_exps
exp_list (e ∷ es) = exp e (exp_list es)

unfoldable pub argument_list : List ExpressionArgument → ExpressionArguments
argument_list [] = end_arguments
argument_list (a ∷ args) = argument a (argument_list args)

-- `FilterExpression::new`, which has no arguments.
unfoldable pub new :
    Option ExpOp
    → Option Value
    → OptionalBin
    → Option ℤ
    → Option ExpType
    → OptionalExps
    → FilterExpression
new cmd val b flags ty es = expression cmd val b flags ty es no_arguments
