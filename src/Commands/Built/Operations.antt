-- ===== src/Commands/Built/Operations.antt =====
-- operations/mod.rs: an operation against the wire format.
use aerospike_client_rust.Base.{
  ℕ, suc, ◌+◌, ◌%◌, ◌^◌, ◌≡◌, refl, List, [], ◌∷◌, ◌++◌, length, arith,
}
use aerospike_client_rust.Outcome.{ok}
use aerospike_client_rust.Buffer.Endian.{Endian}
use aerospike_client_rust.Buffer.Building
use aerospike_client_rust.Buffer.Building.{Writes}
use aerospike_client_rust.Value.Wire.{payload, type_of, IsStorable, estimate_size-payload}
use aerospike_client_rust.Msgpack.Pack.{Packs, Packs-+?, dry_run-Packs}
use aerospike_client_rust.Msgpack.Format.{array_header, encode_int}
use aerospike_client_rust.Msgpack.Packed.Words.{Packs-array_begin}
use aerospike_client_rust.Msgpack.Packed.Integers.{Packs-integer}
use aerospike_client_rust.Msgpack.Packed.Cdt.{
  encode_op, ArgsPackable, ContextsPackable, run_encoder-Packs,
}
use aerospike_client_rust.Msgpack.Cdt
use aerospike_client_rust.Expressions.{Expressions}
use aerospike_client_rust.Operations
use aerospike_client_rust.Operations.{CdtContext, CdtOperation}
use aerospike_client_rust.Operations.Whole
use aerospike_client_rust.Operations.Whole.{
  ExpressionEncoder, ExpOperation, OperationData, OperationBin, Operation, add_u32, bin_length,
  write_bin_name, write_op_header_to, run_exp, data_size, write_cdt, write_data,
}
use aerospike_client_rust.Commands.ParticleType
use aerospike_client_rust.Commands.ParticleType.{ParticleType}

module _ ⦃endian : Endian⦄ where
  open endian use {be32}

  -- The name of a bin behind its length.
  unfoldable pub bin_name_bytes : OperationBin → List ℕ
  bin_name_bytes (OperationBin.name bin) = length bin % 2 ^ 8 ∷ bin
  bin_name_bytes OperationBin.none = 0 ∷ []
  bin_name_bytes OperationBin.all = 0 ∷ []

  pub length-bin_name_bytes :
      (bin : OperationBin) → length (bin_name_bytes bin) ≡ suc (bin_length bin)
  unfolding bin_name_bytes bin_length
  length-bin_name_bytes (OperationBin.name bin) = refl
  length-bin_name_bytes OperationBin.none = refl
  length-bin_name_bytes OperationBin.all = refl

  write_bin_name-Writes :
      (bin : OperationBin)
      → Writes (write_bin_name bin) (length (bin_name_bytes bin)) (bin_name_bytes bin)
  unfolding write_bin_name bin_name_bytes
  write_bin_name-Writes (OperationBin.name bin) =
      Building.Writes->>= _ (Building.Writes-u8 (length bin % 2 ^ 8)) (
        Building.Writes-result (Building.Writes-map (◌+◌ 1) (Building.Writes-str bin))
          (omega arith))
  write_bin_name-Writes OperationBin.none = Building.Writes-u8 0
  write_bin_name-Writes OperationBin.all = Building.Writes-u8 0

  pub write_op_header_to-Writes :
      {F : Type 0} (op : Operation F) (type : ℕ)
      → Writes
          (write_op_header_to op type)
          (2 + length (bin_name_bytes op.bin))
          (type ∷ 0 ∷ bin_name_bytes op.bin)
  unfolding write_op_header_to
  write_op_header_to-Writes op type = Building.Writes->>= _ (Building.Writes-u8 type) (
      Building.Writes->>= _ (Building.Writes-u8 0)
        (Building.Writes-map (◌+◌ 2) (write_bin_name-Writes op.bin)))

module _ ⦃endian : Endian⦄ ⦃exprs : Expressions⦄ where
  open endian use {be32}
  open exprs use {FilterExpression}

  -- The type and the bytes of what an operation carries.
  unfoldable pub data_type : OperationData FilterExpression → ParticleType
  data_type OperationData.none = ParticleType.null
  data_type (OperationData.value v) = type_of v
  data_type _ = ParticleType.blob

  unfoldable pub data_bytes : List CdtContext → OperationData FilterExpression → List ℕ
  data_bytes ctx OperationData.none = []
  data_bytes ctx (OperationData.value v) = payload v
  data_bytes ctx (OperationData.cdt_list_op cdt_op) = encode_op cdt_op.encoder cdt_op ctx
  data_bytes ctx (OperationData.cdt_map_op cdt_op) = encode_op cdt_op.encoder cdt_op ctx
  data_bytes ctx (OperationData.cdt_bit_op cdt_op) = encode_op cdt_op.encoder cdt_op ctx
  data_bytes ctx (OperationData.hll_op cdt_op) = encode_op cdt_op.encoder cdt_op ctx
  data_bytes ctx (OperationData.exp_op e) =
      array_header 2 ++ (exprs.encoding e.exp ++ encode_int e.policy)

  unfoldable pub operation_bytes : Operation FilterExpression → List ℕ
  operation_bytes op =
      be32 (bin_length op.bin + length (data_bytes op.ctx op.op_data) + 4)
      ++ (Operations.code op.op
          ∷ ParticleType.code (data_type op.op_data)
          ∷ 0
          ∷ (bin_name_bytes op.bin ++ data_bytes op.ctx op.op_data))

  unfoldable pub all_operations : List (Operation FilterExpression) → List ℕ
  all_operations [] = []
  all_operations (op ∷ ops) = operation_bytes op ++ all_operations ops

  -- What an operation must carry for its packers to work.
  unfoldable pub IsCarried : List CdtContext → OperationData FilterExpression → Type 0
  IsCarried ctx OperationData.none = Unit {0}
  IsCarried ctx (OperationData.value v) = IsStorable v
  IsCarried ctx (OperationData.exp_op e) = exprs.IsPackable e.exp
  IsCarried ctx (OperationData.cdt_list_op cdt_op) = ArgsPackable cdt_op.args × ContextsPackable ctx
  IsCarried ctx (OperationData.cdt_map_op cdt_op) = ArgsPackable cdt_op.args × ContextsPackable ctx
  IsCarried ctx (OperationData.cdt_bit_op cdt_op) = ArgsPackable cdt_op.args × ContextsPackable ctx
  IsCarried ctx (OperationData.hll_op cdt_op) = ArgsPackable cdt_op.args × ContextsPackable ctx

  unfoldable pub AreCarried : List (Operation FilterExpression) → Type 0
  AreCarried [] = Unit {0}
  AreCarried (op ∷ ops) = IsCarried op.ctx op.op_data × AreCarried ops

  pub run_exp-Packs :
      (e : ExpOperation FilterExpression)
      → exprs.IsPackable e.exp
      → Packs
          (run_exp e.encoder e)
          (array_header 2 ++ (exprs.encoding e.exp ++ encode_int e.policy))
  unfolding run_exp
  run_exp-Packs e h =
      Packs-+? (Packs-array_begin 2) (Packs-+? (exprs.pack-Packs e.exp h) (Packs-integer e.policy))

  cdt_size :
      (op : CdtOperation) (ctx : List CdtContext)
      → ArgsPackable op.args × ContextsPackable ctx
      → Cdt.estimate_size op ctx ≡ ok (length (encode_op op.encoder op ctx))
  unfolding Cdt.estimate_size
  cdt_size op ctx (h, k) = dry_run-Packs (run_encoder-Packs op.encoder op ctx h k)

  data_size_lem :
      (ctx : List CdtContext) (d : OperationData FilterExpression)
      → IsCarried ctx d
      → data_size ctx d ≡ ok (length (data_bytes ctx d))
  unfolding data_size data_bytes IsCarried
  data_size_lem ctx OperationData.none h = refl
  data_size_lem ctx (OperationData.value v) h = estimate_size-payload v h
  data_size_lem ctx (OperationData.exp_op e) h = dry_run-Packs (run_exp-Packs e h)
  data_size_lem ctx (OperationData.cdt_list_op cdt_op) h = cdt_size cdt_op ctx h
  data_size_lem ctx (OperationData.cdt_map_op cdt_op) h = cdt_size cdt_op ctx h
  data_size_lem ctx (OperationData.cdt_bit_op cdt_op) h = cdt_size cdt_op ctx h
  data_size_lem ctx (OperationData.hll_op cdt_op) h = cdt_size cdt_op ctx h

  pub estimate_size_lem :
      (op : Operation FilterExpression)
      → IsCarried op.ctx op.op_data
      → Whole.estimate_size op ≡ ok (bin_length op.bin + length (data_bytes op.ctx op.op_data))
  unfolding Whole.estimate_size
  estimate_size_lem op h = rw (data_size_lem op.ctx op.op_data h, Whole.estimate_size) refl
