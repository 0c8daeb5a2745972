-- ===== src/Msgpack/Packed/Cdt.antt =====
-- msgpack/encoder.rs: the encoders of collection operations against the reference.
use aerospike_client_rust.Base.{
  ℕ, ◌+◌, ◌*◌, Bool, true, false, List, [], ◌∷◌, ◌++◌, length, ◌==◌, if◌then◌else◌, bit_or, pos,
}
use aerospike_client_rust.Outcome.{pure}
use aerospike_client_rust.Buffer.Endian.{Endian}
use aerospike_client_rust.Buffer.Building
use aerospike_client_rust.Buffer.Building.{Writes}
use aerospike_client_rust.Value.{Value, length_values, length_entries}
use aerospike_client_rust.Operations.{
  CdtContext, CdtArgument, OperationEncoder, pack_cdt_op, pack_cdt_bit_op, pack_hll_op,
  CdtOperation,
}
use aerospike_client_rust.Msgpack.Pack.{Packs, Packs-pure, Packs-emit, Packs-+?}
use aerospike_client_rust.Msgpack.Encoder.{pack_raw_u16, pack_array_begin, pack_integer}
use aerospike_client_rust.Msgpack.Cdt.{
  pack_arg, pack_args, pack_contexts, pack_cdt_op_lists, pack_hll_op_args, pack_cdt_op_bits,
  run_encoder,
}
use aerospike_client_rust.Msgpack.Format.{
  array_header, map_header, encode_int, encode, encode_values, encode_entries, IsPackable,
  ArePackable, EntriesPackable,
}
use aerospike_client_rust.Msgpack.Packed.Words.{Packs-array_begin}
use aerospike_client_rust.Msgpack.Packed.Integers.{Packs-integer}
use aerospike_client_rust.Msgpack.Packed.Values.{pack_value-Packs, pack_array-Packs, pack_map-Packs}

abbrev pub ArgPackable : CdtArgument → Type 0
ArgPackable (CdtArgument.byte b) = Unit
ArgPackable (CdtArgument.int z) = Unit
ArgPackable (CdtArgument.bool b) = Unit
ArgPackable (CdtArgument.value v) = IsPackable v
ArgPackable (CdtArgument.list vs) = ArePackable vs
ArgPackable (CdtArgument.map es) = EntriesPackable es

abbrev pub ArgsPackable : List CdtArgument → Type 0
ArgsPackable [] = Unit
ArgsPackable (arg ∷ args) = ArgPackable arg × ArgsPackable args

abbrev pub ContextsPackable : List CdtContext → Type 0
ContextsPackable [] = Unit
ContextsPackable (c ∷ ctx) = IsPackable c.value × ContextsPackable ctx

module _ ⦃endian : Endian⦄ where
  open endian use {be16}

  unfoldable pub encode_arg : CdtArgument → List ℕ
  encode_arg (CdtArgument.byte b) = encode_int (pos b)
  encode_arg (CdtArgument.int z) = encode_int z
  encode_arg (CdtArgument.bool b) = encode (Value.bool b)
  encode_arg (CdtArgument.value v) = encode v
  encode_arg (CdtArgument.list vs) = array_header (length_values vs) ++ encode_values vs
  encode_arg (CdtArgument.map es) = map_header (length_entries es) ++ encode_entries es

  unfoldable pub encode_args : List CdtArgument → List ℕ
  encode_args [] = []
  encode_args (arg ∷ args) = encode_arg arg ++ encode_args args

  -- The identifier of a context with its flags.
  abbrev pub context_id : CdtContext → ℕ
  context_id c = if c.id == 0 then c.id else bit_or c.id c.flags

  unfoldable pub encode_contexts : List CdtContext → List ℕ
  encode_contexts [] = []
  encode_contexts (c ∷ ctx) =
      encode_int (pos (context_id c)) ++ (encode c.value ++ encode_contexts ctx)

  -- An operation as one array: its code and its arguments.
  unfoldable pub encode_call : CdtOperation → List ℕ
  encode_call op =
      array_header (length op.args + 1) ++ (encode_int (pos op.op) ++ encode_args op.args)

  -- The call within its context: an array of three, marked by 0xff.
  unfoldable pub encode_nested : CdtOperation → List CdtContext → List ℕ
  encode_nested op ctx =
      array_header 3
      ++ (encode_int (pos 0xff)
          ++ (array_header (length ctx * 2) ++ (encode_contexts ctx ++ encode_call op)))

  -- Without context a list or map operation is a raw 16-bit code, then its arguments if any.
  unfoldable pub encode_flat : CdtOperation → List ℕ
  encode_flat op =
      be16 op.op
      ++ ((if length op.args == 0 then [] else array_header (length op.args))
          ++ encode_args op.args)

  unfoldable pub encode_op : OperationEncoder → CdtOperation → List CdtContext → List ℕ
  encode_op pack_cdt_op op [] = encode_flat op
  encode_op pack_cdt_op op (c ∷ ctx) = encode_nested op (c ∷ ctx)
  encode_op pack_cdt_bit_op op [] = encode_call op
  encode_op pack_cdt_bit_op op (c ∷ ctx) = encode_nested op (c ∷ ctx)
  encode_op pack_hll_op op ctx = encode_call op

  Packs-arg : (arg : CdtArgument) → ArgPackable arg → Packs (pack_arg arg) (encode_arg arg)
  unfolding pack_arg encode_arg encode IsPackable
  Packs-arg (CdtArgument.byte b) h = pack_value-Packs (Value.int (pos b)) tt
  Packs-arg (CdtArgument.int z) h = pack_value-Packs (Value.int z) tt
  Packs-arg (CdtArgument.bool b) h = pack_value-Packs (Value.bool b) tt
  Packs-arg (CdtArgument.value v) h = pack_value-Packs v h
  Packs-arg (CdtArgument.list vs) h = pack_array-Packs vs h
  Packs-arg (CdtArgument.map es) h = pack_map-Packs es h

  Packs-args :
      (args : List CdtArgument) → ArgsPackable args → Packs (pack_args args) (encode_args args)
  unfolding pack_args encode_args
  Packs-args [] h = Packs-pure
  Packs-args (arg ∷ args) h = Packs-+? (Packs-arg arg h.0) (Packs-args args h.1)

  Packs-context_id :
      (c : CdtContext) (b : Bool)
      → Packs
          (if b then pack_integer (pos c.id) else pack_integer (pos (bit_or c.id c.flags)))
          (encode_int (pos (if b then c.id else bit_or c.id c.flags)))
  Packs-context_id c true = Packs-integer (pos c.id)
  Packs-context_id c false = Packs-integer (pos (bit_or c.id c.flags))

  Packs-contexts :
      (ctx : List CdtContext)
      → ContextsPackable ctx
      → Packs (pack_contexts ctx) (encode_contexts ctx)
  unfolding pack_contexts encode_contexts
  Packs-contexts [] h = Packs-pure
  Packs-contexts (c ∷ ctx) h =
      Packs-+? (Packs-context_id c (c.id == 0))
        (Packs-+? (pack_value-Packs c.value h.0) (Packs-contexts ctx h.1))

  Packs-call :
      (op : CdtOperation) (ctx : List CdtContext)
      → ArgsPackable op.args
      → Packs (pack_hll_op_args op ctx) (encode_call op)
  unfolding pack_hll_op_args encode_call
  Packs-call op ctx h =
      Packs-+? (Packs-array_begin _) (Packs-+? (Packs-integer _) (Packs-args op.args h))

  Packs-nested :
      (op : CdtOperation) (c : CdtContext) (ctx : List CdtContext)
      → ArgsPackable op.args
      → ContextsPackable (c ∷ ctx)
      → Packs (pack_cdt_op_bits op (c ∷ ctx)) (encode_nested op (c ∷ ctx))
  unfolding pack_cdt_op_bits encode_nested encode_call
  Packs-nested op c ctx h k = Packs-+? (Packs-array_begin 3) (
      Packs-+? (Packs-integer (pos 0xff)) (
        Packs-+? (Packs-array_begin _) (
          Packs-+? (Packs-contexts (c ∷ ctx) k)
            (Packs-+? (Packs-array_begin _) (Packs-+? (Packs-integer _) (Packs-args op.args h))))))

  Packs-count :
      (n : ℕ) (b : Bool)
      → Packs (if b then pure 0 else pack_array_begin n) (if b then [] else array_header n)
  Packs-count n true = Packs-pure
  Packs-count n false = Packs-array_begin n

  Packs-flat :
      (op : CdtOperation) → ArgsPackable op.args → Packs (pack_cdt_op_lists op []) (encode_flat op)
  unfolding pack_cdt_op_lists encode_flat pack_raw_u16
  Packs-flat op h =
      Packs-+? (Packs-emit 2 (Building.Writes-u16 op.op) (endian.length-be16 op.op))
        (Packs-+? (Packs-count (length op.args) (length op.args == 0)) (Packs-args op.args h))

  -- Every encoder counts and writes the same bytes, those of the reference, with and without a
  -- nesting context, when no argument and no context value holds an ordered map.
  pub run_encoder-Packs :
      (encoder : OperationEncoder) (op : CdtOperation) (ctx : List CdtContext)
      → ArgsPackable op.args
      → ContextsPackable ctx
      → Packs (run_encoder encoder op ctx) (encode_op encoder op ctx)
  unfolding run_encoder encode_op pack_cdt_op_bits pack_hll_op_args pack_cdt_op_lists encode_call
  run_encoder-Packs pack_cdt_op op [] h k = Packs-flat op h
  run_encoder-Packs pack_cdt_op op (c ∷ ctx) h k = Packs-nested op c ctx h k
  run_encoder-Packs pack_cdt_bit_op op [] h k = Packs-call op [] h
  run_encoder-Packs pack_cdt_bit_op op (c ∷ ctx) h k = Packs-nested op c ctx h k
  run_encoder-Packs pack_hll_op op ctx h k = Packs-call op ctx h
