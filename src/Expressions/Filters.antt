-- ===== src/Expressions/Filters.antt =====
-- The filter expressions of expressions/mod.rs as the ones that the commands send.
use aerospike_client_rust.Base.{
  ℕ, ◌≤◌, ◌^◌, Option, none, some, List, [], ◌++◌, length, length-append, ltb, Bool-cases, inl, inr,
  ℤ, pos, true, false, arith,
}
use aerospike_client_rust.Buffer.Endian.{Endian}
use aerospike_client_rust.Value.{FloatValue, Value}
use aerospike_client_rust.Value.Display.{Formatting}
use aerospike_client_rust.Msgpack.Format.{
  header, encode_int, encode_uint, encode_float, encode_bytes, encode, IsPackable,
}
use aerospike_client_rust.Expressions.{Expressions}
use aerospike_client_rust.Expressions.ExpOp.{ExpOp}
use aerospike_client_rust.Expressions.ExpType.{ExpType}
use aerospike_client_rust.Expressions.Filter.{FilterExpression, expression, no_exps, exps}
use aerospike_client_rust.Expressions.Packing.{pack}
use aerospike_client_rust.Expressions.Tree.{
  Node, array, Nodes, end_nodes, node, flatten, flatten_each, given, command_tree, trees, bin_trees,
  arguments_tree,
}
use aerospike_client_rust.Expressions.WellFormed.{IsExpression, IsPackableValue}
use aerospike_client_rust.Expressions.Packed.{pack-IsExpression}

module _ ⦃endian : Endian⦄ where
  starts : (xs ys : List ℕ) → 1 ≤ length xs → 1 ≤ length (xs ++ ys)
  starts xs ys h = omega (arith, length-append xs ys)

  header-nonempty :
      (small base wide16 wide32 n : ℕ) → 1 ≤ length (header small base wide16 wide32 n)
  unfolding header
  header-nonempty small base wide16 wide32 n = elim (Bool-cases (ltb n small)) [
    | inl e ↦ rw e (omega arith)
    | inr e ↦ elim (Bool-cases (ltb n (2 ^ 16))) [
      | inl f ↦ rw (e, f) (omega arith)
      | inr f ↦ rw (e, f) (omega arith)
    ]
  ]

  encode_int-nonempty : (z : ℤ) → 1 ≤ length (encode_int z)
  unfolding encode_int
  encode_int-nonempty z = ground arith

  encode-nonempty : (v : Value) → IsPackable v → 1 ≤ length (encode v)
  unfolding encode encode_uint encode_float encode_bytes IsPackable
  encode-nonempty Value.nil h = omega arith
  encode-nonempty (Value.bool true) h = omega arith
  encode-nonempty (Value.bool false) h = omega arith
  encode-nonempty (Value.int z) h = encode_int-nonempty z
  encode-nonempty (Value.uint n) h = elim (Bool-cases (ltb n (2 ^ 63))) [
    | inl e ↦ rw e (encode_int-nonempty (pos n))
    | inr e ↦ rw e (omega arith)
  ]
  encode-nonempty (Value.float (FloatValue.f64 bits)) h = omega arith
  encode-nonempty (Value.float (FloatValue.f32 bits)) h = omega arith
  encode-nonempty (Value.string s) h = starts _ _ (header-nonempty 32 0xa0 0xda 0xdb _)
  encode-nonempty (Value.blob s) h = starts _ _ (header-nonempty 32 0xa0 0xda 0xdb _)
  encode-nonempty (Value.hll s) h = starts _ _ (header-nonempty 32 0xa0 0xda 0xdb _)
  encode-nonempty (Value.geo_json s) h = starts _ _ (header-nonempty 32 0xa0 0xda 0xdb _)
  encode-nonempty (Value.list vs) h = starts _ _ (header-nonempty 16 0x90 0xdc 0xdd _)
  encode-nonempty (Value.hash_map es) h = starts _ _ (header-nonempty 16 0x80 0xde 0xdf _)
  encode-nonempty (Value.ordered_map es) h = absurd h

  array-nonempty : (ns : Nodes) → 1 ≤ length (flatten_each (node (array ns) end_nodes))
  unfolding flatten flatten_each
  array-nonempty ns = starts _ [] (starts _ _ (header-nonempty 16 0x90 0xdc 0xdd _))

module _ ⦃endian : Endian⦄ ⦃formatting : Formatting⦄ where
  command-nonempty :
      (cmd : ExpOp) (val : Option Value) (on_bin : Nodes) (flags : Option ℤ) (ty : Option ExpType)
      (args : Node)
      → 1 ≤ length (flatten_each (node (command_tree cmd val on_bin flags ty args) end_nodes))
  unfolding command_tree
  command-nonempty ExpOp.regex val on_bin flags ty args = array-nonempty _
  command-nonempty ExpOp.call val on_bin flags ty args = array-nonempty _
  command-nonempty ExpOp.bin val on_bin flags ty args = array-nonempty _
  command-nonempty ExpOp.bin_type val on_bin flags ty args = array-nonempty _
  command-nonempty ExpOp.var val on_bin flags ty args = array-nonempty _
  command-nonempty cmd (some v) on_bin flags ty args = array-nonempty _
  command-nonempty cmd none on_bin flags ty args = array-nonempty _

  pub trees-nonempty : (e : FilterExpression) → IsExpression e → 1 ≤ length (flatten_each (trees e))
  unfolding trees IsExpression IsPackableValue given flatten flatten_each
  trees-nonempty (expression cmd (some val) b flags ty (exps es) args) h = absurd h
  trees-nonempty (expression none none b flags ty (exps es) args) h = absurd h
  trees-nonempty (expression (some cmd) none b flags ty (exps es) args) h = array-nonempty _
  trees-nonempty (expression (some cmd) val b flags ty no_exps args) h =
      command-nonempty cmd val (bin_trees b) flags ty (arguments_tree val args)
  trees-nonempty (expression none none b flags ty no_exps args) h = absurd h
  trees-nonempty (expression none (some v) b flags ty no_exps args) h =
      starts _ [] (encode-nonempty v h)

  instance abbrev pub filters : Expressions
  filters = record {
    FilterExpression = FilterExpression;
    pack = pack;
    encoding = λ e. flatten_each (trees e);
    IsPackable = IsExpression;
    pack-Packs = pack-IsExpression;
    encoding-nonempty = trees-nonempty;
  }
