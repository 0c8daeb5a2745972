-- ===== src/Commands/Built/OperationWritten.antt =====
-- operations/mod.rs: `Operation::write_to` against the wire format.
use aerospike_client_rust.Base.{
  ℕ, ◌+◌, ◌%◌, ◌^◌, ◌<◌, ◌≡◌, refl, sym, ap, List, ◌∷◌, ◌++◌, length, length-append, append-nil,
  arith, lt→ltb,
}
use native.Mathlib.Nat.{mod-eq_of_lt}
use aerospike_client_rust.Outcome.{ok}
use aerospike_client_rust.Buffer.Endian.{Endian}
use aerospike_client_rust.Buffer.Building
use aerospike_client_rust.Buffer.Building.{Writes}
use aerospike_client_rust.Value.Wire.{particle_type-storable, write_to-Writes}
use aerospike_client_rust.Msgpack.Pack.{Writes-wet_run}
use aerospike_client_rust.Msgpack.Packed.Cdt.{
  encode_op, ArgsPackable, ContextsPackable, run_encoder-Packs,
}
use aerospike_client_rust.Msgpack.Cdt
use aerospike_client_rust.Expressions.{Expressions}
use aerospike_client_rust.Operations
use aerospike_client_rust.Operations.{CdtOperation}
use aerospike_client_rust.Operations.Whole
use aerospike_client_rust.Operations.Whole.{
  OperationData, Operation, add_u32, bin_length, write_cdt, write_data,
}
use aerospike_client_rust.Commands.ParticleType
use aerospike_client_rust.Commands.ParticleType.{ParticleType}
use aerospike_client_rust.Commands.Built.Passes.{Sends}
use aerospike_client_rust.Commands.Built.Operations.{
  bin_name_bytes, length-bin_name_bytes, write_op_header_to-Writes, data_type, data_bytes,
  operation_bytes, IsCarried, run_exp-Packs, estimate_size_lem,
}

add_u32_small : (n : ℕ) → n + 4 < 2 ^ 32 → add_u32 (n % 2 ^ 32) 4 ≡ ok (n + 4)
unfolding add_u32
add_u32_small n h =
    let e : n % 2 ^ 32 ≡ n = mod-eq_of_lt (omega arith) in rw (e, lt→ltb (n + 4) (2 ^ 32) h) refl

module _ ⦃endian : Endian⦄ ⦃exprs : Expressions⦄ where
  open endian use {be32}
  open exprs use {FilterExpression}

  -- The bytes of an operation behind its length and its code.
  abbrev carried : Operation FilterExpression → OperationData FilterExpression → List ℕ
  carried op d =
      ParticleType.code (data_type d) ∷ 0 ∷ (bin_name_bytes op.bin ++ data_bytes op.ctx d)

  write_cdt-Writes :
      (op : Operation FilterExpression) (cdt_op : CdtOperation)
      → ArgsPackable cdt_op.args × ContextsPackable op.ctx
      → (r : ℕ) × Writes (write_cdt op cdt_op) r (
          ParticleType.code ParticleType.blob
          ∷ 0
          ∷ (bin_name_bytes op.bin ++ encode_op cdt_op.encoder cdt_op op.ctx))
  unfolding write_cdt Cdt.write_to
  write_cdt-Writes op cdt_op (h, k) = (
    _,
    Building.Writes->>= _ (write_op_header_to-Writes op _) (
        Building.Writes-map (◌+◌ (2 + length (bin_name_bytes op.bin)))
          (Writes-wet_run (run_encoder-Packs cdt_op.encoder cdt_op op.ctx h k))),
  )

  write_data-Writes :
      (op : Operation FilterExpression) (d : OperationData FilterExpression)
      → IsCarried op.ctx d
      → (r : ℕ) × Writes (write_data op d) r (carried op d)
  unfolding write_data IsCarried data_type data_bytes
  write_data-Writes op OperationData.none h = (
    _,
    Building.Writes-eq (write_op_header_to-Writes op _) (
        ap (λ t. ParticleType.code ParticleType.null ∷ 0 ∷ t)
          (sym (append-nil (bin_name_bytes op.bin)))),
  )
  write_data-Writes op (OperationData.value v) h = (
    _,
    Building.Writes->>= _ (Building.Writes-lift _ (particle_type-storable v h)) (
        Building.Writes->>= _ (write_op_header_to-Writes op _)
          (Building.Writes-map (◌+◌ (2 + length (bin_name_bytes op.bin))) (write_to-Writes v h))),
  )
  write_data-Writes op (OperationData.exp_op e) h = (
    _,
    Building.Writes->>= _ (write_op_header_to-Writes op _) (
        Building.Writes-map (◌+◌ (2 + length (bin_name_bytes op.bin)))
          (Writes-wet_run (run_exp-Packs e h))),
  )
  write_data-Writes op (OperationData.cdt_list_op cdt_op) h = write_cdt-Writes op cdt_op h
  write_data-Writes op (OperationData.cdt_map_op cdt_op) h = write_cdt-Writes op cdt_op h
  write_data-Writes op (OperationData.cdt_bit_op cdt_op) h = write_cdt-Writes op cdt_op h
  write_data-Writes op (OperationData.hll_op cdt_op) h = write_cdt-Writes op cdt_op h

  pub length-operation_bytes :
      (op : Operation FilterExpression)
      → length (operation_bytes op) ≡ bin_length op.bin + length (data_bytes op.ctx op.op_data) + 8
  unfolding operation_bytes
  length-operation_bytes op =
      let n : ℕ = bin_length op.bin + length (data_bytes op.ctx op.op_data) + 4 in
      omega (
        arith,
        length-append (be32 n) (Operations.code op.op ∷ carried op op.op_data),
        length-append (bin_name_bytes op.bin) (data_bytes op.ctx op.op_data),
        length-bin_name_bytes op.bin,
        endian.length-be32 n,
      )

  pub write_to-Sends :
      (op : Operation FilterExpression)
      → IsCarried op.ctx op.op_data
      → (r : ℕ) × Sends (Whole.write_to op) r (operation_bytes op)
  unfolding Whole.write_to operation_bytes
  write_to-Sends op h =
      let n : ℕ = bin_length op.bin + length (data_bytes op.ctx op.op_data) in
      let (r, body) = write_data-Writes op op.op_data h in
      (
        _,
        record {
          writes = λ short.
              Building.Writes->>= _ (Building.Writes-lift _ (estimate_size_lem op h)) (
                Building.Writes->>= _
                  (Building.Writes-lift _
                    (add_u32_small n (omega (arith, length-operation_bytes op))))
                  (Building.Writes->>= _ (Building.Writes-u32 (n + 4)) (
                    Building.Writes->>= _ (Building.Writes-u8 (Operations.code op.op))
                      (Building.Writes-map (◌+◌ 5) body))));
        },
      )
