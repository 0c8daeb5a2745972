-- ===== src/Expressions/Packing.antt =====
-- expressions/mod.rs: `pack` and its parts. They take the fields of `self` that they read, and
-- `self.f.unwrap()` is a panic without the field.
use aerospike_client_rust.Base.{
  ℕ, zero, suc, ◌+◌, ◌*◌, Option, none, some, List, [], ◌∷◌, length, ℤ, pos,
}
use aerospike_client_rust.Outcome.{panic, pure}
use aerospike_client_rust.Buffer.Endian.{Endian}
use aerospike_client_rust.Value.{Value}
use aerospike_client_rust.Value.Display.{Formatting, as_string}
use aerospike_client_rust.Operations.{CdtContext}
use aerospike_client_rust.Msgpack.Pack.{Pack, ◌+?◌}
use aerospike_client_rust.Msgpack.Encoder
use aerospike_client_rust.Msgpack.Encoder.{pack_array_begin, pack_integer, pack_raw_string}
use aerospike_client_rust.Expressions.ExpOp
use aerospike_client_rust.Expressions.ExpOp.{ExpOp}
use aerospike_client_rust.Expressions.ExpType
use aerospike_client_rust.Expressions.ExpType.{ExpType}
use aerospike_client_rust.Expressions.Filter.{
  FilterExpression, expression, OptionalBin, no_bin, bin, no_exps, exps, FilterExpressions,
  end_exps, exp, OptionalArguments, no_arguments, arguments, ExpressionArguments, end_arguments,
  argument, value, filter_expression, context, length_exps,
}

-- `f(buf, field.unwrap())`
unfoldable pub unwrap : {A : Type 0} → Option A → (A → Pack) → Pack
unwrap none f = λ b. panic
unwrap (some a) f = f a

-- The first loop over the arguments: `len`.
unfoldable pub count_arguments : ExpressionArguments → ℕ
count_arguments end_arguments = 0
count_arguments (argument (context ctx) args) = count_arguments args
count_arguments (argument _ args) = suc (count_arguments args)

module _ ⦃endian : Endian⦄ where
  -- The header of a list of expressions behind an operation. The subtraction of `Let` overflows
  -- on an empty list.
  unfoldable pub pack_exps_begin : ExpOp → ℕ → Pack
  pack_exps_begin ExpOp.exp_let zero = λ b. panic
  pack_exps_begin ExpOp.exp_let (suc n) = pack_array_begin (n * 2 + 2)
  pack_exps_begin cmd n = pack_array_begin (n + 1)

  -- The contexts of a call are written without their flags.
  unfoldable pub pack_each_context : List CdtContext → Pack
  pack_each_context [] = pure 0
  pack_each_context (c ∷ ctx) =
      pack_integer (pos c.id) +? (Encoder.pack_value c.value +? pack_each_context ctx)

  unfoldable pub pack_context : List CdtContext → Pack
  pack_context [] = pure 0
  pack_context (c ∷ ctx) =
      pack_array_begin 3
      +? (pack_integer (pos 0xff)
          +? (pack_array_begin (length (c ∷ ctx) * 2) +? pack_each_context (c ∷ ctx)))

  -- The first loop over the arguments: the contexts.
  unfoldable pub pack_argument_contexts : ExpressionArguments → Pack
  pack_argument_contexts end_arguments = pure 0
  pack_argument_contexts (argument (context ctx) args) =
      pack_context ctx +? pack_argument_contexts args
  pack_argument_contexts (argument _ args) = pack_argument_contexts args

  -- `pack_value` of an expression.
  unfoldable pub pack_value : Option Value → Pack
  pack_value val = unwrap val Encoder.pack_value

module _ ⦃endian : Endian⦄ ⦃formatting : Formatting⦄ where
  unfoldable pub pack_name : Option Value → Pack
  pack_name val = unwrap val λ v. pack_raw_string (as_string v)

  -- `first` is `exps[0].pack(buf)`, and `each` the loop over `exps`, which has `n` members.
  unfoldable pub pack_expression : Option ExpOp → Option Value → ℕ → Pack → Pack → Pack
  pack_expression cmd (some val) n first each = pack_raw_string (as_string val) +? first
  pack_expression none none n first each = λ b. panic
  pack_expression (some cmd) none n first each =
      pack_exps_begin cmd n +? (pack_integer (pos (ExpOp.code cmd)) +? each)

  -- `on_bin` is `self.bin.clone().unwrap().pack(buf)`, and `args` what stands between the flags
  -- and the bin of a call.
  unfoldable pub pack_command :
      ExpOp → Option Value → Pack → Option ℤ → Option ExpType → Pack → Pack
  pack_command ExpOp.regex val on_bin flags ty args =
      pack_array_begin 4
      +? (pack_integer (pos (ExpOp.code ExpOp.regex))
          +? (unwrap flags pack_integer +? (pack_name val +? on_bin)))
  pack_command ExpOp.call val on_bin flags ty args =
      pack_array_begin 5
      +? (pack_integer (pos (ExpOp.code ExpOp.call))
          +? ((unwrap ty λ t. pack_integer (pos (ExpType.code t)))
              +? (unwrap flags pack_integer +? (args +? on_bin))))
  pack_command ExpOp.bin val on_bin flags ty args =
      pack_array_begin 3
      +? (pack_integer (pos (ExpOp.code ExpOp.bin))
          +? ((unwrap ty λ t. pack_integer (pos (ExpType.code t))) +? pack_name val))
  pack_command ExpOp.bin_type val on_bin flags ty args =
      pack_array_begin 2 +? (pack_integer (pos (ExpOp.code ExpOp.bin_type)) +? pack_name val)
  pack_command ExpOp.var val on_bin flags ty args =
      pack_array_begin 2 +? (pack_integer (pos (ExpOp.code ExpOp.var)) +? pack_name val)
  pack_command cmd (some v) on_bin flags ty args =
      pack_array_begin 2 +? (pack_integer (pos (ExpOp.code cmd)) +? Encoder.pack_value v)
  pack_command cmd none on_bin flags ty args =
      pack_array_begin 1 +? pack_integer (pos (ExpOp.code cmd))

  unfoldable mutual
    pub pack : FilterExpression → Pack
    pack (expression cmd val b flags ty (exps es) args) =
        pack_expression cmd val (length_exps es) (pack_first es) (pack_each_exp es)
    pack (expression (some cmd) val b flags ty no_exps args) =
        pack_command cmd val (pack_bin b) flags ty (pack_arguments val args)
    pack (expression none val b flags ty no_exps args) = pack_value val

    pub pack_bin : OptionalBin → Pack
    pack_bin no_bin = λ b. panic
    pack_bin (bin e) = pack e

    pub pack_first : FilterExpressions → Pack
    pack_first end_exps = λ b. panic
    pack_first (exp e es) = pack e

    pub pack_each_exp : FilterExpressions → Pack
    pack_each_exp end_exps = pure 0
    pack_each_exp (exp e es) = pack e +? pack_each_exp es

    pub pack_arguments : Option Value → OptionalArguments → Pack
    pack_arguments val no_arguments = pack_value val
    pack_arguments val (arguments args) =
        pack_argument_contexts args
        +? (pack_array_begin (count_arguments args) +? pack_each_argument args)

    -- The second loop over the arguments: the values.
    pub pack_each_argument : ExpressionArguments → Pack
    pack_each_argument end_arguments = pure 0
    pack_each_argument (argument (value v) args) = Encoder.pack_value v +? pack_each_argument args
    pack_each_argument (argument (filter_expression e) args) = pack e +? pack_each_argument args
    pack_each_argument (argument (context ctx) args) = pack_each_argument args
