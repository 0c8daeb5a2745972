-- ===== src/Msgpack/Cdt.antt =====
-- msgpack/encoder.rs: `pack_cdt_op`, `pack_cdt_bit_op` and `pack_hll_op`, the encoders of the
-- operations on collections, and operations/cdt.rs, which runs them.
use aerospike_client_rust.Base.{
  ℕ, ◌+◌, ◌*◌, List, [], ◌∷◌, length, ◌==◌, if◌then◌else◌, bit_or, pos,
}
use aerospike_client_rust.Outcome.{Outcome, pure}
use aerospike_client_rust.Buffer.{M}
use aerospike_client_rust.Buffer.Endian.{Endian}
use aerospike_client_rust.Value.{Value}
use aerospike_client_rust.Operations.{
  CdtContext, CdtArgument, OperationEncoder, pack_cdt_op, pack_cdt_bit_op, pack_hll_op,
  CdtOperation,
}
use aerospike_client_rust.Msgpack.Pack.{Pack, ◌+?◌, dry_run, wet_run}
use aerospike_client_rust.Msgpack.Encoder.{
  pack_raw_u16, pack_array_begin, pack_integer, pack_value, pack_array, pack_map,
}

module _ ⦃endian : Endian⦄ where
  unfoldable pub pack_arg : CdtArgument → Pack
  pack_arg (CdtArgument.byte b) = pack_value (Value.int (pos b))
  pack_arg (CdtArgument.int z) = pack_value (Value.int z)
  pack_arg (CdtArgument.value v) = pack_value v
  pack_arg (CdtArgument.list vs) = pack_array vs
  pack_arg (CdtArgument.map es) = pack_map es
  pack_arg (CdtArgument.bool b) = pack_value (Value.bool b)

  unfoldable pub pack_args : List CdtArgument → Pack
  pack_args [] = pure 0
  pack_args (arg ∷ args) = pack_arg arg +? pack_args args

  -- `for c in ctx`: the flags are merged into the identifier unless it is 0.
  unfoldable pub pack_contexts : List CdtContext → Pack
  pack_contexts [] = pure 0
  pack_contexts (c ∷ ctx) =
      (if c.id == 0 then pack_integer (pos c.id) else pack_integer (pos (bit_or c.id c.flags)))
      +? (pack_value c.value +? pack_contexts ctx)

  unfoldable pub pack_cdt_op_lists : CdtOperation → List CdtContext → Pack
  pack_cdt_op_lists op [] =
      pack_raw_u16 op.op
      +? ((if length op.args == 0 then pure 0 else pack_array_begin (length op.args))
          +? pack_args op.args)
  pack_cdt_op_lists op (c ∷ ctx) =
      pack_array_begin 3
      +? (pack_integer (pos 0xff)
          +? (pack_array_begin (length (c ∷ ctx) * 2)
              +? (pack_contexts (c ∷ ctx)
                  +? (pack_array_begin (length op.args + 1)
                      +? (pack_integer (pos op.op) +? pack_args op.args)))))

  unfoldable pub pack_hll_op_args : CdtOperation → List CdtContext → Pack
  pack_hll_op_args op ctx =
      pack_array_begin (length op.args + 1) +? (pack_integer (pos op.op) +? pack_args op.args)

  unfoldable pub pack_cdt_op_bits : CdtOperation → List CdtContext → Pack
  pack_cdt_op_bits op [] =
      pack_array_begin (length op.args + 1) +? (pack_integer (pos op.op) +? pack_args op.args)
  pack_cdt_op_bits op (c ∷ ctx) =
      pack_array_begin 3
      +? (pack_integer (pos 0xff)
          +? (pack_array_begin (length (c ∷ ctx) * 2)
              +? (pack_contexts (c ∷ ctx)
                  +? (pack_array_begin (length op.args + 1)
                      +? (pack_integer (pos op.op) +? pack_args op.args)))))

  -- `(self.encoder)(buf, self, ctx)`
  unfoldable pub run_encoder : OperationEncoder → CdtOperation → List CdtContext → Pack
  run_encoder pack_cdt_op = pack_cdt_op_lists
  run_encoder pack_cdt_bit_op = pack_cdt_op_bits
  run_encoder pack_hll_op = pack_hll_op_args

  unfoldable pub estimate_size : CdtOperation → List CdtContext → Outcome ℕ
  estimate_size op ctx = dry_run (run_encoder op.encoder op ctx)

  unfoldable pub write_to : CdtOperation → List CdtContext → M ℕ
  write_to op ctx = wet_run (run_encoder op.encoder op ctx)
