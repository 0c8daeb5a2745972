-- ===== src/Expressions/Counted.antt =====
-- expressions/mod.rs: the numbers in the headers of the arrays against the members of the arrays.
use aerospike_client_rust.Base.{
  suc, ◌+◌, ◌*◌, ◌≡◌, refl, sym, ap, ◌∙◌, none, some, List, [], ◌∷◌, ◌++◌, length, append_assoc,
  arith,
}
use aerospike_client_rust.Buffer.Endian.{Endian}
use aerospike_client_rust.Value.Display.{Formatting}
use aerospike_client_rust.Operations.{CdtContext}
use aerospike_client_rust.Expressions.Filter.{
  FilterExpression, expression, no_exps, exps, FilterExpressions, end_exps, exp,
  ExpressionArguments, end_arguments, argument, value, filter_expression, context, length_exps,
}
use aerospike_client_rust.Expressions.Packing.{count_arguments}
use aerospike_client_rust.Expressions.Tree.{
  Nodes, end_nodes, node, length_nodes, append_nodes, flatten, flatten_each, context_nodes, trees,
  first_trees, each_tree, argument_trees,
}
use aerospike_client_rust.Expressions.WellFormed.{
  IsExpression, IsDefinition, IsFirst, AreExpressions, IsScope, EachIsArgument,
}

pub length-append_nodes :
    (ns ms : Nodes) → length_nodes (append_nodes ns ms) ≡ length_nodes ns + length_nodes ms
unfolding length_nodes append_nodes
length-append_nodes end_nodes ms = omega arith
length-append_nodes (node n ns) ms = omega (arith, length-append_nodes ns ms)

module _ ⦃endian : Endian⦄ where
  pub flatten_each-append_nodes :
      (ns ms : Nodes) → flatten_each (append_nodes ns ms) ≡ flatten_each ns ++ flatten_each ms
  unfolding flatten_each append_nodes
  flatten_each-append_nodes end_nodes ms = refl
  flatten_each-append_nodes (node n ns) ms =
      ap (λ t. flatten n ++ t) (flatten_each-append_nodes ns ms)
      ∙ sym (append_assoc (flatten n) (flatten_each ns) (flatten_each ms))

  pub length-context_nodes :
      (ctx : List CdtContext) → length_nodes (context_nodes ctx) ≡ length ctx * 2
  unfolding length_nodes context_nodes
  length-context_nodes [] = refl
  length-context_nodes (c ∷ ctx) = omega (arith, length-context_nodes ctx)

module _ ⦃endian : Endian⦄ ⦃formatting : Formatting⦄ where
  -- An expression is one tree, and a definition is two.
  pub length-trees : (e : FilterExpression) → IsExpression e → length_nodes (trees e) ≡ 1
  unfolding length_nodes trees IsExpression
  length-trees (expression cmd (some val) b flags ty (exps es) args) h = absurd h
  length-trees (expression none none b flags ty (exps es) args) h = absurd h
  length-trees (expression (some cmd) none b flags ty (exps es) args) h = refl
  length-trees (expression (some cmd) val b flags ty no_exps args) h = refl
  length-trees (expression none val b flags ty no_exps args) h = refl

  length-definition : (e : FilterExpression) → IsDefinition e → length_nodes (trees e) ≡ 2
  unfolding length_nodes trees IsDefinition first_trees IsFirst
  length-definition (expression cmd (some val) b flags ty (exps (exp e es)) args) h =
      ap suc (length-trees e h)
  length-definition (expression cmd (some val) b flags ty (exps end_exps) args) h = absurd h
  length-definition (expression cmd none b flags ty (exps es) args) h = absurd h
  length-definition (expression cmd val b flags ty no_exps args) h = absurd h

  pub length-each_tree :
      (es : FilterExpressions) → AreExpressions es → length_nodes (each_tree es) ≡ length_exps es
  unfolding each_tree length_exps AreExpressions length_nodes
  length-each_tree end_exps h = refl
  length-each_tree (exp e es) h = omega (
    arith,
    length-append_nodes (trees e) (each_tree es),
    length-trees e h.0,
    length-each_tree es h.1,
  )

  -- The members of a `Let` of `n + 1` expressions: two for each definition, and the last.
  pub length-scope :
      (e : FilterExpression) (es : FilterExpressions)
      → IsScope (exp e es)
      → length_nodes (each_tree (exp e es)) ≡ length_exps es * 2 + 1
  unfolding each_tree length_exps IsScope length_nodes
  length-scope e end_exps h =
      omega (arith, length-append_nodes (trees e) (each_tree end_exps), length-trees e h)
  length-scope e (exp f es) h = omega (
    arith,
    length-append_nodes (trees e) (each_tree (exp f es)),
    length-definition e h.0,
    length-scope f es h.1,
  )

  pub length-argument_trees :
      (args : ExpressionArguments)
      → EachIsArgument args
      → length_nodes (argument_trees args) ≡ count_arguments args
  unfolding argument_trees count_arguments EachIsArgument length_nodes
  length-argument_trees end_arguments h = refl
  length-argument_trees (argument (value v) args) h = ap suc (length-argument_trees args h.1)
  length-argument_trees (argument (filter_expression e) args) h = omega (
    arith,
    length-append_nodes (trees e) (argument_trees args),
    length-trees e h.0,
    length-argument_trees args h.1,
  )
  length-argument_trees (argument (context ctx) args) h = length-argument_trees args h
