-- ===== src/Operations/Whole.antt =====
-- operations/mod.rs: `Operation`, its size and its bytes; operations/exp.rs: the operations on
-- expressions, whose encoder is one of two functions. `op_data` is the source's field `data`.
use aerospike_client_rust.Base.{ℕ, ◌+◌, ◌%◌, ◌^◌, List, length, if◌then◌else◌, ltb, ℤ}
use aerospike_client_rust.Outcome.{Outcome, ok, err, panic, exhausted, pure, ◌>>=◌, lift}
use aerospike_client_rust.Buffer.{M}
use aerospike_client_rust.Buffer.Endian.{Endian}
use aerospike_client_rust.Buffer.Writes.{write_u8, write_u32, write_str}
use aerospike_client_rust.Value.{Value}
use aerospike_client_rust.Value.Wire
use aerospike_client_rust.Msgpack.Pack.{Pack, ◌+?◌, dry_run, wet_run}
use aerospike_client_rust.Msgpack.Encoder.{pack_array_begin, pack_integer}
use aerospike_client_rust.Msgpack.Cdt
use aerospike_client_rust.Expressions.{Expressions}
use aerospike_client_rust.Operations
use aerospike_client_rust.Operations.{CdtContext, CdtOperation, OperationType}
use aerospike_client_rust.Commands.ParticleType
use aerospike_client_rust.Commands.ParticleType.{ParticleType}

pub data ExpressionEncoder : Type 0 where
  pack_write_exp pack_read_exp : ExpressionEncoder

pub record ExpOperation (F : Type 0) : Type 0 where
  pub encoder : ExpressionEncoder
  pub policy : ℤ
  pub exp : F

pub data OperationData (F : Type 0) : Type 0 where
  none : OperationData F
  value : Value → OperationData F
  cdt_list_op cdt_map_op cdt_bit_op hll_op : CdtOperation → OperationData F
  exp_op : ExpOperation F → OperationData F

pub data OperationBin : Type 0 where
  none all : OperationBin
  name : List ℕ → OperationBin

pub record Operation (F : Type 0) : Type 0 where
  pub op : OperationType
  pub ctx : List CdtContext
  pub bin : OperationBin
  pub op_data : OperationData F

-- `n + k` on `u32`
unfoldable pub add_u32 : ℕ → ℕ → Outcome ℕ
add_u32 n k = if ltb (n + k) (2 ^ 32) then ok (n + k) else panic

unfoldable pub bin_length : OperationBin → ℕ
bin_length (OperationBin.name bin) = length bin
bin_length OperationBin.none = 0
bin_length OperationBin.all = 0

-- The arms on the bin: its length and its name.
unfoldable pub write_bin_name : OperationBin → M ℕ
write_bin_name (OperationBin.name bin) = do
  len ← write_u8 (length bin % 2 ^ 8)
  text ← write_str bin
  pure (len + text)
write_bin_name OperationBin.none = write_u8 0
write_bin_name OperationBin.all = write_u8 0

unfoldable pub write_op_header_to : {F : Type 0} → Operation F → ℕ → M ℕ
write_op_header_to op particle_type = do
  type ← write_u8 particle_type
  version ← write_u8 0
  bin ← write_bin_name op.bin
  pure (type + version + bin)

module _ ⦃endian : Endian⦄ ⦃exprs : Expressions⦄ where
  open exprs use {FilterExpression}

  -- `(self.encoder)(buf, self)`; both encoders have the same body.
  unfoldable pub run_exp : ExpressionEncoder → ExpOperation FilterExpression → Pack
  run_exp encoder e = pack_array_begin 2 +? (exprs.pack e.exp +? pack_integer e.policy)

  unfoldable pub data_size : List CdtContext → OperationData FilterExpression → Outcome ℕ
  data_size ctx OperationData.none = ok 0
  data_size ctx (OperationData.value v) = Wire.estimate_size v
  data_size ctx (OperationData.exp_op e) = dry_run (run_exp e.encoder e)
  data_size ctx (OperationData.cdt_list_op cdt_op) = Cdt.estimate_size cdt_op ctx
  data_size ctx (OperationData.cdt_map_op cdt_op) = Cdt.estimate_size cdt_op ctx
  data_size ctx (OperationData.cdt_bit_op cdt_op) = Cdt.estimate_size cdt_op ctx
  data_size ctx (OperationData.hll_op cdt_op) = Cdt.estimate_size cdt_op ctx

  unfoldable pub estimate_size : Operation FilterExpression → Outcome ℕ
  estimate_size op = elim (data_size op.ctx op.op_data) [
    | ok size ↦ ok (bin_length op.bin + size)
    | err e ↦ err e
    | panic ↦ panic
    | exhausted ↦ exhausted
  ]

  -- The arm of a collection operation.
  unfoldable pub write_cdt : Operation FilterExpression → CdtOperation → M ℕ
  write_cdt op cdt_op = do
    head ← write_op_header_to op (ParticleType.code ParticleType.blob)
    body ← Cdt.write_to cdt_op op.ctx
    pure (head + body)

  unfoldable pub write_data : Operation FilterExpression → OperationData FilterExpression → M ℕ
  write_data op OperationData.none = write_op_header_to op (ParticleType.code ParticleType.null)
  write_data op (OperationData.value v) = do
    type ← lift (Wire.particle_type v)
    head ← write_op_header_to op (ParticleType.code type)
    body ← Wire.write_to v
    pure (head + body)
  write_data op (OperationData.cdt_list_op cdt_op) = write_cdt op cdt_op
  write_data op (OperationData.cdt_map_op cdt_op) = write_cdt op cdt_op
  write_data op (OperationData.cdt_bit_op cdt_op) = write_cdt op cdt_op
  write_data op (OperationData.hll_op cdt_op) = write_cdt op cdt_op
  write_data op (OperationData.exp_op e) = do
    head ← write_op_header_to op (ParticleType.code ParticleType.blob)
    body ← wet_run (run_exp e.encoder e)
    pure (head + body)

  unfoldable pub write_to : Operation FilterExpression → M ℕ
  write_to op = do
    op_size ← lift (estimate_size op)
    len ← lift (add_u32 (op_size % 2 ^ 32) 4)
    size ← write_u32 len
    code ← write_u8 (Operations.code op.op)
    body ← write_data op op.op_data
    pure (size + code + body)
