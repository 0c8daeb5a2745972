-- ===== src/Expressions/Packed.antt =====
-- expressions/mod.rs: `pack` of a filter expression against its tree.
use aerospike_client_rust.Base.{◌≡◌, Option, none, some}
use aerospike_client_rust.Buffer.Endian.{Endian}
use aerospike_client_rust.Value.{Value}
use aerospike_client_rust.Value.Display.{Formatting}
use aerospike_client_rust.Msgpack.Pack.{Packs, Packs-+?, Packs-eq}
use aerospike_client_rust.Expressions.ExpOp.{ExpOp}
use aerospike_client_rust.Expressions.Filter.{
  FilterExpression, expression, OptionalBin, no_bin, bin, no_exps, exps, FilterExpressions,
  end_exps, exp, OptionalArguments, no_arguments, arguments, ExpressionArguments, end_arguments,
  argument, value, filter_expression, context,
}
use aerospike_client_rust.Expressions.Packing.{
  pack_expression, pack, pack_bin, pack_first, pack_each_exp, pack_arguments, pack_each_argument,
}
use aerospike_client_rust.Expressions.Tree.{
  end_nodes, length_nodes, flatten, flatten_each, context_of, trees, first_trees, each_tree,
  bin_trees, arguments_tree, argument_trees,
}
use aerospike_client_rust.Expressions.WellFormed.{
  HasShape, IsExpression, IsDefinition, IsFirst, AreExpressions, IsScope, IsBin, AreArguments,
  EachIsArgument,
}
use aerospike_client_rust.Expressions.Counted.{length-trees, length-argument_trees}
use aerospike_client_rust.Expressions.Parts.{
  Packs-last, Packs-node, Packs-none, Packs-array, Packs-append, Packs-leaf, Packs-value,
  Packs-one_context, before-in_context, Packs-text, Packs-command, Packs-exps_begin,
}

module _ ⦃endian : Endian⦄ ⦃formatting : Formatting⦄ where
  length-bin_trees : (b : OptionalBin) → IsBin b → length_nodes (bin_trees b) ≡ 1
  unfolding bin_trees IsBin
  length-bin_trees no_bin h = absurd h
  length-bin_trees (bin e) h = length-trees e h

  mutual
    unfolding pack pack_bin pack_first pack_each_exp pack_arguments pack_each_argument
        pack_expression trees first_trees each_tree bin_trees arguments_tree argument_trees
        IsExpression IsDefinition IsFirst AreExpressions IsScope HasShape IsBin AreArguments
        EachIsArgument

    expression-Packs :
        (e : FilterExpression) → IsExpression e → Packs (pack e) (flatten_each (trees e))
    expression-Packs (expression cmd (some val) b flags ty (exps es) args) h = absurd h
    expression-Packs (expression none none b flags ty (exps es) args) h = absurd h
    expression-Packs (expression (some ExpOp.exp_let) none b flags ty (exps es) args) h =
        Packs-last _ (Packs-exps_begin ExpOp.exp_let es h (scope-Packs es h))
    expression-Packs (expression (some cmd) none b flags ty (exps es) args) h =
        Packs-last _ (Packs-exps_begin cmd es h (each-Packs es h))
    expression-Packs (expression (some cmd) val b flags ty no_exps args) h = Packs-last _ (
        Packs-command cmd val flags ty (bin_trees b) (arguments_tree val args) (λ k. bin-Packs b k)
          (length-bin_trees b) (λ k. arguments-Packs val args k) h)
    expression-Packs (expression none val b flags ty no_exps args) h =
        Packs-last _ (Packs-value val h)

    definition-Packs :
        (e : FilterExpression) → IsDefinition e → Packs (pack e) (flatten_each (trees e))
    definition-Packs (expression cmd (some val) b flags ty (exps (exp e es)) args) h =
        Packs-node _ (trees e) (Packs-text val) (expression-Packs e h)
    definition-Packs (expression cmd (some val) b flags ty (exps end_exps) args) h = absurd h
    definition-Packs (expression cmd none b flags ty (exps es) args) h = absurd h
    definition-Packs (expression cmd val b flags ty no_exps args) h = absurd h

    each-Packs :
        (es : FilterExpressions)
        → AreExpressions es
        → Packs (pack_each_exp es) (flatten_each (each_tree es))
    each-Packs end_exps h = Packs-none
    each-Packs (exp e es) h =
        Packs-append (trees e) (each_tree es) (expression-Packs e h.0) (each-Packs es h.1)

    scope-Packs :
        (es : FilterExpressions)
        → IsScope es
        → Packs (pack_each_exp es) (flatten_each (each_tree es))
    scope-Packs end_exps h = absurd h
    scope-Packs (exp e end_exps) h =
        Packs-append (trees e) end_nodes (expression-Packs e h) Packs-none
    scope-Packs (exp e (exp f es)) h =
        Packs-append (trees e) (each_tree (exp f es)) (definition-Packs e h.0)
          (scope-Packs (exp f es) h.1)

    bin-Packs : (b : OptionalBin) → IsBin b → Packs (pack_bin b) (flatten_each (bin_trees b))
    bin-Packs no_bin h = absurd h
    bin-Packs (bin e) h = expression-Packs e h

    arguments-Packs :
        (val : Option Value) (args : OptionalArguments)
        → AreArguments val args
        → Packs (pack_arguments val args) (flatten (arguments_tree val args))
    arguments-Packs val no_arguments h = Packs-value val h
    arguments-Packs val (arguments args) h =
        Packs-eq
          (Packs-+? (Packs-one_context args h.0)
            (Packs-array _ (length-argument_trees args h.1) (each_argument-Packs args h.1)))
          (before-in_context (context_of args) (argument_trees args))

    each_argument-Packs :
        (args : ExpressionArguments)
        → EachIsArgument args
        → Packs (pack_each_argument args) (flatten_each (argument_trees args))
    each_argument-Packs end_arguments h = Packs-none
    each_argument-Packs (argument (value v) args) h =
        Packs-node _ (argument_trees args) (Packs-leaf v h.0) (each_argument-Packs args h.1)
    each_argument-Packs (argument (filter_expression e) args) h =
        Packs-append (trees e) (argument_trees args) (expression-Packs e h.0)
          (each_argument-Packs args h.1)
    each_argument-Packs (argument (context ctx) args) h = each_argument-Packs args h

  -- Both runs of `pack` on a well-formed filter expression, of any depth, agree with its tree: the
  -- dry run counts the bytes of the flattened tree, and the run on a buffer with room writes them.
  pub pack-IsExpression :
      (e : FilterExpression) → IsExpression e → Packs (pack e) (flatten_each (trees e))
  pack-IsExpression e h = expression-Packs e h
