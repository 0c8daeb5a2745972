-- ===== src/Expressions/Parts.antt =====
-- expressions/mod.rs: the parts of `pack` against the parts of a tree.
use aerospike_client_rust.Base.{
  ℕ, ◌≡◌, refl, sym, ap, ◌∙◌, Option, none, some, List, [], ◌∷◌, ◌++◌, append_assoc, append-nil, ℤ,
  pos, arith,
}
use mathlib.Core.Path.{subst}
use aerospike_client_rust.Buffer.Endian.{Endian}
use aerospike_client_rust.Outcome.{pure}
use aerospike_client_rust.Value.{Value}
use aerospike_client_rust.Value.Display.{Formatting, as_string}
use aerospike_client_rust.Operations.{CdtContext}
use aerospike_client_rust.Msgpack.Pack.{Pack, Packs, ◌+?◌, Packs-pure, Packs-+?, Packs-eq}
use aerospike_client_rust.Msgpack.Encoder
use aerospike_client_rust.Msgpack.Encoder.{pack_array_begin, pack_integer, pack_raw_string}
use aerospike_client_rust.Msgpack.Format.{array_header, encode_int, encode, IsPackable}
use aerospike_client_rust.Msgpack.Packed.Words.{Packs-array_begin}
use aerospike_client_rust.Msgpack.Packed.Integers.{Packs-integer}
use aerospike_client_rust.Msgpack.Packed.Values.{Packs-raw_string, pack_value-Packs}
use aerospike_client_rust.Msgpack.Packed.Cdt.{ContextsPackable}
use aerospike_client_rust.Expressions.ExpOp
use aerospike_client_rust.Expressions.ExpOp.{ExpOp}
use aerospike_client_rust.Expressions.ExpType
use aerospike_client_rust.Expressions.ExpType.{ExpType}
use aerospike_client_rust.Expressions.Filter.{
  FilterExpressions, end_exps, exp, ExpressionArguments, end_arguments, argument, context,
  length_exps,
}
use aerospike_client_rust.Expressions.Packing.{
  unwrap, pack_exps_begin, pack_each_context, pack_context, pack_argument_contexts, pack_value,
  pack_name, pack_command,
}
use aerospike_client_rust.Expressions.Tree.{
  Node, leaf, array, Nodes, end_nodes, node, length_nodes, append_nodes, flatten, flatten_each,
  int_leaf, text_leaf, given, context_nodes, in_context, context_of, command_tree, each_tree,
}
use aerospike_client_rust.Expressions.WellFormed.{
  IsGiven, IsPackableValue, HasNoContext, HasOneContext, HasShape, IsCommand, AreExpressions,
  IsScope,
}
use aerospike_client_rust.Expressions.Counted.{
  flatten_each-append_nodes, length-context_nodes, length-each_tree, length-scope,
}

nested : (a b c d : List ℕ) → (a ++ (b ++ c)) ++ d ≡ a ++ (b ++ (c ++ (d ++ [])))
nested a b c d =
    rw (append-nil d) (append_assoc a (b ++ c) d ∙ ap (λ t. a ++ t) (append_assoc b c d))

module _ ⦃endian : Endian⦄ where
  pub Packs-last :
      {p : Pack} (n : Node) → Packs p (flatten n) → Packs p (flatten_each (node n end_nodes))
  unfolding flatten_each
  Packs-last n h = Packs-eq h (sym (append-nil (flatten n)))

  pub Packs-node :
      {p q : Pack} (n : Node) (ns : Nodes)
      → Packs p (flatten n)
      → Packs q (flatten_each ns)
      → Packs (p +? q) (flatten_each (node n ns))
  unfolding flatten_each
  Packs-node n ns g h = Packs-+? g h

  pub Packs-none : Packs (pure 0) (flatten_each end_nodes)
  unfolding flatten_each
  Packs-none = Packs-pure

  pub Packs-array :
      {q : Pack} {k : ℕ} (ns : Nodes)
      → length_nodes ns ≡ k
      → Packs q (flatten_each ns)
      → Packs (pack_array_begin k +? q) (flatten (array ns))
  unfolding flatten
  Packs-array {q} ns e h =
      subst (λ k. Packs (pack_array_begin k +? q) (flatten (array ns))) e
        (Packs-+? (Packs-array_begin _) h)

  pub Packs-append :
      {p q : Pack} (ns ms : Nodes)
      → Packs p (flatten_each ns)
      → Packs q (flatten_each ms)
      → Packs (p +? q) (flatten_each (append_nodes ns ms))
  Packs-append ns ms g h = Packs-eq (Packs-+? g h) (sym (flatten_each-append_nodes ns ms))

  Packs-int : (n : ℕ) → Packs (pack_integer (pos n)) (flatten (int_leaf n))
  unfolding flatten
  Packs-int n = Packs-integer (pos n)

  -- A field that is given.
  Packs-given :
      {A : Type 0} (f : A → Pack) (g : A → Node) (a : Option A)
      → ((x : A) → Packs (f x) (flatten (g x)))
      → IsGiven a
      → Packs (unwrap a f) (flatten (given g a))
  unfolding unwrap given IsGiven
  Packs-given f g none h k = absurd k
  Packs-given f g (some x) h k = h x

  pub Packs-value :
      (val : Option Value)
      → IsPackableValue val
      → Packs (pack_value val) (flatten (given (λ v. leaf (encode v)) val))
  unfolding pack_value unwrap given IsPackableValue flatten
  Packs-value none h = absurd h
  Packs-value (some v) h = pack_value-Packs v h

  pub Packs-leaf :
      (v : Value) → IsPackable v → Packs (Encoder.pack_value v) (flatten (leaf (encode v)))
  unfolding flatten
  Packs-leaf v h = pack_value-Packs v h

  Packs-flags :
      (flags : Option ℤ)
      → IsGiven flags
      → Packs (unwrap flags pack_integer) (flatten (given (λ z. leaf (encode_int z)) flags))
  unfolding flatten
  Packs-flags flags h = Packs-given _ _ flags Packs-integer h

  Packs-each_context :
      (ctx : List CdtContext)
      → ContextsPackable ctx
      → Packs (pack_each_context ctx) (flatten_each (context_nodes ctx))
  unfolding pack_each_context context_nodes flatten flatten_each
  Packs-each_context [] h = Packs-pure
  Packs-each_context (c ∷ ctx) h =
      Packs-+? (Packs-integer _)
        (Packs-+? (pack_value-Packs c.value h.0) (Packs-each_context ctx h.1))

  -- What stands before the arguments in a context.
  unfoldable pub before : List CdtContext → List ℕ
  before [] = []
  before (c ∷ ctx) =
      array_header 3 ++ (encode_int (pos 0xff) ++ flatten (array (context_nodes (c ∷ ctx))))

  Packs-context :
      (ctx : List CdtContext) → ContextsPackable ctx → Packs (pack_context ctx) (before ctx)
  unfolding pack_context before
  Packs-context [] h = Packs-pure
  Packs-context (c ∷ ctx) h = Packs-+? (Packs-array_begin 3) (
      Packs-+? (Packs-integer (pos 0xff)) (
        Packs-array (context_nodes (c ∷ ctx)) (length-context_nodes (c ∷ ctx))
          (Packs-each_context (c ∷ ctx) h)))

  Packs-no_context :
      (args : ExpressionArguments) → HasNoContext args → Packs (pack_argument_contexts args) []
  unfolding pack_argument_contexts HasNoContext pack_context
  Packs-no_context end_arguments h = Packs-pure
  Packs-no_context (argument (context []) args) h = Packs-+? Packs-pure (Packs-no_context args h)
  Packs-no_context (argument (context (c ∷ ctx)) args) h = absurd h
  Packs-no_context (argument _ args) h = Packs-no_context args h

  pub Packs-one_context :
      (args : ExpressionArguments)
      → HasOneContext args
      → Packs (pack_argument_contexts args) (before (context_of args))
  unfolding pack_argument_contexts HasOneContext context_of pack_context before
  Packs-one_context end_arguments h = Packs-pure
  Packs-one_context (argument (context []) args) h = Packs-+? Packs-pure (Packs-one_context args h)
  Packs-one_context (argument (context (c ∷ ctx)) args) h =
      Packs-eq (Packs-+? (Packs-context (c ∷ ctx) h.0) (Packs-no_context args h.1))
        (append-nil (before (c ∷ ctx)))
  Packs-one_context (argument _ args) h = Packs-one_context args h

  pub before-in_context :
      (ctx : List CdtContext) (args : Nodes)
      → before ctx ++ flatten (array args) ≡ flatten (in_context ctx args)
  unfolding before in_context flatten flatten_each length_nodes
  before-in_context [] args = refl
  before-in_context (c ∷ ctx) args =
      nested (array_header 3) (encode_int (pos 0xff)) (flatten (array (context_nodes (c ∷ ctx))))
        (flatten (array args))

module _ ⦃endian : Endian⦄ ⦃formatting : Formatting⦄ where
  pub Packs-text :
      (v : Value) → Packs (pack_raw_string (as_string v)) (flatten (text_leaf (as_string v)))
  unfolding flatten
  Packs-text v = Packs-raw_string (as_string v)

  Packs-name :
      (val : Option Value)
      → IsGiven val
      → Packs (pack_name val) (flatten (given (λ v. text_leaf (as_string v)) val))
  unfolding pack_name
  Packs-name val h = Packs-given _ _ val Packs-text h

  -- An operation over packers of its bin and of its arguments.
  pub Packs-command :
      (cmd : ExpOp) (val : Option Value) (flags : Option ℤ) (ty : Option ExpType) (on_bin : Nodes)
      (args : Node) {p q : Pack} {OnBin Args : Type 0}
      → (OnBin → Packs p (flatten_each on_bin))
      → (OnBin → length_nodes on_bin ≡ 1)
      → (Args → Packs q (flatten args))
      → IsCommand cmd val OnBin flags ty Args
      → Packs
          (pack_command cmd val p flags ty q)
          (flatten (command_tree cmd val on_bin flags ty args))
  unfolding pack_command command_tree IsCommand ExpOp.code length_nodes
  Packs-command ExpOp.regex val flags ty on_bin args g l k h =
      Packs-array _ (omega (arith, l h.2)) (
        Packs-node _ _ (Packs-int 7) (
          Packs-node _ _ (Packs-flags flags h.0)
            (Packs-node _ on_bin (Packs-name val h.1) (g h.2))))
  Packs-command ExpOp.call val flags ty on_bin args g l k h = Packs-array _ (omega (arith, l h.3)) (
      Packs-node _ _ (Packs-int 127) (
        Packs-node _ _ (Packs-given _ _ ty (λ t. Packs-int (ExpType.code t)) h.0)
          (Packs-node _ _ (Packs-flags flags h.1) (Packs-node args on_bin (k h.2) (g h.3)))))
  Packs-command ExpOp.bin val flags ty on_bin args g l k h = Packs-array _ refl (
      Packs-node _ _ (Packs-int 81) (
        Packs-node _ _ (Packs-given _ _ ty (λ t. Packs-int (ExpType.code t)) h.0)
          (Packs-last _ (Packs-name val h.1))))
  Packs-command ExpOp.bin_type val flags ty on_bin args g l k h =
      Packs-array _ refl (Packs-node _ _ (Packs-int 82) (Packs-last _ (Packs-name val h)))
  Packs-command ExpOp.var val flags ty on_bin args g l k h =
      Packs-array _ refl (Packs-node _ _ (Packs-int 124) (Packs-last _ (Packs-name val h)))
  Packs-command cmd (some v) flags ty on_bin args g l k h =
      Packs-array _ refl
        (Packs-node _ _ (Packs-int (ExpOp.code cmd)) (Packs-last _ (Packs-leaf v h)))
  Packs-command cmd none flags ty on_bin args g l k h =
      Packs-array _ refl (Packs-last _ (Packs-int (ExpOp.code cmd)))

  pub Packs-exps_begin :
      (cmd : ExpOp) (es : FilterExpressions) {q : Pack}
      → HasShape cmd (IsScope es) (AreExpressions es)
      → Packs q (flatten_each (each_tree es))
      → Packs
          (pack_exps_begin cmd (length_exps es) +? (pack_integer (pos (ExpOp.code cmd)) +? q))
          (flatten (array (node (int_leaf (ExpOp.code cmd)) (each_tree es))))
  unfolding HasShape IsScope pack_exps_begin length_nodes length_exps ExpOp.code
  Packs-exps_begin ExpOp.exp_let end_exps h k = absurd h
  Packs-exps_begin ExpOp.exp_let (exp e es) h k =
      Packs-array _ (omega (arith, length-scope e es h))
        (Packs-node _ (each_tree (exp e es)) (Packs-int 125) k)
  Packs-exps_begin cmd es h k =
      Packs-array _ (omega (arith, length-each_tree es h))
        (Packs-node _ (each_tree es) (Packs-int (ExpOp.code cmd)) k)
