-- ===== src/Expressions/Tree.antt =====
-- The wire form of a filter expression, without a buffer: a tree whose leaves are MessagePack
-- values and whose inner nodes are arrays. It is the reference for `pack` of expressions/mod.rs.
use aerospike_client_rust.Base.{ℕ, suc, Option, none, some, List, [], ◌∷◌, ◌++◌, length, ℤ, pos}
use aerospike_client_rust.Buffer.Endian.{Endian}
use aerospike_client_rust.Value.{Value}
use aerospike_client_rust.Value.Display.{Formatting, as_string}
use aerospike_client_rust.Operations.{CdtContext}
use aerospike_client_rust.Msgpack.Format.{array_header, bytes_header, encode_int, encode}
use aerospike_client_rust.Expressions.ExpOp
use aerospike_client_rust.Expressions.ExpOp.{ExpOp}
use aerospike_client_rust.Expressions.ExpType
use aerospike_client_rust.Expressions.ExpType.{ExpType}
use aerospike_client_rust.Expressions.Filter.{
  FilterExpression, expression, OptionalBin, no_bin, bin, no_exps, exps, FilterExpressions,
  end_exps, exp, OptionalArguments, no_arguments, arguments, ExpressionArguments, end_arguments,
  argument, value, filter_expression, context,
}

mutual
  pub data Node : Type 0 where
    leaf : List ℕ → Node
    array : Nodes → Node

  pub data Nodes : Type 0 where
    end_nodes : Nodes
    node : Node → Nodes → Nodes

unfoldable pub length_nodes : Nodes → ℕ
length_nodes end_nodes = 0
length_nodes (node n ns) = suc (length_nodes ns)

unfoldable pub append_nodes : Nodes → Nodes → Nodes
append_nodes end_nodes ms = ms
append_nodes (node n ns) ms = node n (append_nodes ns ms)

module _ ⦃endian : Endian⦄ where
  -- Every array is headed by the number of its members.
  unfoldable mutual
    pub flatten : Node → List ℕ
    flatten (leaf bs) = bs
    flatten (array ns) = array_header (length_nodes ns) ++ flatten_each ns

    pub flatten_each : Nodes → List ℕ
    flatten_each end_nodes = []
    flatten_each (node n ns) = flatten n ++ flatten_each ns

  abbrev pub int_leaf : ℕ → Node
  int_leaf n = leaf (encode_int (pos n))

  abbrev pub text_leaf : List ℕ → Node
  text_leaf s = leaf (bytes_header (length s) ++ s)

  -- A field that is not given has no bytes.
  unfoldable pub given : {A : Type 0} → (A → Node) → Option A → Node
  given f none = leaf []
  given f (some a) = f a

  unfoldable pub context_nodes : List CdtContext → Nodes
  context_nodes [] = end_nodes
  context_nodes (c ∷ ctx) = node (int_leaf c.id) (node (leaf (encode c.value)) (context_nodes ctx))

  -- The arguments of a call, within the context that is the first not to be empty.
  unfoldable pub in_context : List CdtContext → Nodes → Node
  in_context [] args = array args
  in_context (c ∷ ctx) args =
      array (
        node (int_leaf 0xff) (node (array (context_nodes (c ∷ ctx))) (node (array args) end_nodes)))

  unfoldable pub context_of : ExpressionArguments → List CdtContext
  context_of end_arguments = []
  context_of (argument (context (c ∷ ctx)) args) = c ∷ ctx
  context_of (argument _ args) = context_of args

module _ ⦃endian : Endian⦄ ⦃formatting : Formatting⦄ where
  abbrev name_leaf : Option Value → Node
  name_leaf = given λ v. text_leaf (as_string v)

  -- An operation with its code first, over what its bin and its arguments stand for.
  unfoldable pub command_tree :
      ExpOp → Option Value → Nodes → Option ℤ → Option ExpType → Node → Node
  command_tree ExpOp.regex val on_bin flags ty args = array (
      node (int_leaf 7)
        (node (given (λ z. leaf (encode_int z)) flags) (node (name_leaf val) on_bin)))
  command_tree ExpOp.call val on_bin flags ty args = array (
      node (int_leaf 127) (
        node (given (λ t. int_leaf (ExpType.code t)) ty)
          (node (given (λ z. leaf (encode_int z)) flags) (node args on_bin))))
  command_tree ExpOp.bin val on_bin flags ty args = array (
      node (int_leaf 81)
        (node (given (λ t. int_leaf (ExpType.code t)) ty) (node (name_leaf val) end_nodes)))
  command_tree ExpOp.bin_type val on_bin flags ty args =
      array (node (int_leaf 82) (node (name_leaf val) end_nodes))
  command_tree ExpOp.var val on_bin flags ty args =
      array (node (int_leaf 124) (node (name_leaf val) end_nodes))
  command_tree cmd (some v) on_bin flags ty args =
      array (node (int_leaf (ExpOp.code cmd)) (node (leaf (encode v)) end_nodes))
  command_tree cmd none on_bin flags ty args = array (node (int_leaf (ExpOp.code cmd)) end_nodes)

  -- A definition is spliced into the list that it stands in: its name, then its expression.
  unfoldable mutual
    pub trees : FilterExpression → Nodes
    trees (expression cmd (some val) b flags ty (exps es) args) =
        node (text_leaf (as_string val)) (first_trees es)
    trees (expression none none b flags ty (exps es) args) = end_nodes
    trees (expression (some cmd) none b flags ty (exps es) args) =
        node (array (node (int_leaf (ExpOp.code cmd)) (each_tree es))) end_nodes
    trees (expression (some cmd) val b flags ty no_exps args) =
        node (command_tree cmd val (bin_trees b) flags ty (arguments_tree val args)) end_nodes
    trees (expression none val b flags ty no_exps args) =
        node (given (λ v. leaf (encode v)) val) end_nodes

    pub first_trees : FilterExpressions → Nodes
    first_trees end_exps = end_nodes
    first_trees (exp e es) = trees e

    pub each_tree : FilterExpressions → Nodes
    each_tree end_exps = end_nodes
    each_tree (exp e es) = append_nodes (trees e) (each_tree es)

    pub bin_trees : OptionalBin → Nodes
    bin_trees no_bin = end_nodes
    bin_trees (bin e) = trees e

    pub arguments_tree : Option Value → OptionalArguments → Node
    arguments_tree val no_arguments = given (λ v. leaf (encode v)) val
    arguments_tree val (arguments args) = in_context (context_of args) (argument_trees args)

    pub argument_trees : ExpressionArguments → Nodes
    argument_trees end_arguments = end_nodes
    argument_trees (argument (value v) args) = node (leaf (encode v)) (argument_trees args)
    argument_trees (argument (filter_expression e) args) =
        append_nodes (trees e) (argument_trees args)
    argument_trees (argument (context ctx) args) = argument_trees args
