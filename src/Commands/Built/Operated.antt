-- ===== src/Commands/Built/Operated.antt =====
-- commands/buffer.rs: `set_operate` against the wire format.
use aerospike_client_rust.Base.{
  ℕ, ◌+◌, ◌%◌, ◌^◌, ◌<◌, ◌≡◌, Bool, true, false, not, ◌&&◌, List, [], ◌∷◌, ◌++◌, length,
  length-append, arith, if◌then◌else◌, ◌==◌,
}
use aerospike_client_rust.Buffer.{Buffer, M}
use aerospike_client_rust.Buffer.Endian.{Endian}
use aerospike_client_rust.Key.{Key}
use aerospike_client_rust.Expressions.{Expressions}
use aerospike_client_rust.Operations.Whole.{Operation}
use mathlib.Core.Path.{subst}
use aerospike_client_rust.Policy.{WritePolicy}
use aerospike_client_rust.Commands.Operate.{
  estimate_operations, write_operations, write_operate_header, operate, set_operate,
}
use aerospike_client_rust.Commands.Built.Passes.{
  Estimates, Estimates-pure, Estimates-lift, Estimates-grow, Estimates->>=, Estimates->>,
  Estimates-eq, Sends, Sends-pure, Sends->>, Heads,
}
use aerospike_client_rust.Commands.Built.Frames.{
  built, Finishes->>, Finishes-last, Builds, Builds-size, Builds->>=, Builds-begin,
}
use aerospike_client_rust.Commands.Built.Layout.{
  IsKey, IsFilter, key_count, filter_count, key_fields, filter_field, bare_head,
}
use aerospike_client_rust.Commands.Built.Estimated.{
  estimate_key_size-Estimates, estimate_filter_size-Estimates,
}
use aerospike_client_rust.Commands.Built.Written.{write_key-Sends, write_filter-Sends}
use aerospike_client_rust.Commands.Built.Heads.{
  write_head, write_header-Heads, write_header_with_policy-Heads,
}
use aerospike_client_rust.Commands.Built.Flags.{consistent}
use aerospike_client_rust.Commands.Built.Attributes.{read_bits, operate_bits}
use aerospike_client_rust.Commands.Built.Collected.{
  reads_of, writes_of, reads_of-bits, writes_of-bits, read_number-room, write_number-room,
}
use aerospike_client_rust.Commands.Built.Messages.{counted}
use aerospike_client_rust.Commands.Built.Operations.{
  operation_bytes, all_operations, AreCarried, estimate_size_lem,
}
use aerospike_client_rust.Commands.Built.OperationWritten.{length-operation_bytes, write_to-Sends}

module _ ⦃endian : Endian⦄ ⦃exprs : Expressions⦄ where
  open exprs use {FilterExpression}

  write_operations-Sends :
      (ops : List (Operation FilterExpression))
      → AreCarried ops
      → Sends (write_operations ops) tt (all_operations ops)
  unfolding write_operations AreCarried all_operations
  write_operations-Sends [] h = Sends-pure tt
  write_operations-Sends (op ∷ ops) (h, hs) =
      Sends->> (write_to-Sends op h).1 (write_operations-Sends ops hs)

  estimate_operations-coded :
      (per_each_op : Bool) (ops : List (Operation FilterExpression)) (read_attr write_attr : ℕ)
      → AreCarried ops
      → Estimates
          (estimate_operations per_each_op ops read_attr write_attr)
          (reads_of ops read_attr, writes_of per_each_op ops write_attr)
          (length (all_operations ops))
  unfolding estimate_operations AreCarried all_operations reads_of writes_of
  estimate_operations-coded per_each_op [] read_attr write_attr h = Estimates-pure _
  estimate_operations-coded per_each_op (op ∷ ops) read_attr write_attr (h, hs) =
      Estimates-eq
        (Estimates->>= _ (Estimates-lift _ (estimate_size_lem op h))
          (Estimates->> (Estimates-grow _) (estimate_operations-coded per_each_op ops _ _ hs)))
        (omega (
          arith,
          length-append (operation_bytes op) (all_operations ops),
          length-operation_bytes op,
        ))

  estimate_operations-Estimates :
      (per_each_op : Bool) (ops : List (Operation FilterExpression))
      → AreCarried ops
      → Estimates
          (estimate_operations per_each_op ops 0 0)
          (read_bits ops, operate_bits per_each_op ops)
          (length (all_operations ops))
  estimate_operations-Estimates per_each_op ops h =
      subst
        (λ attrs.
          Estimates (estimate_operations per_each_op ops 0 0) attrs (length (all_operations ops)))
        (λ i. (reads_of-bits ops i, writes_of-bits per_each_op ops i))
        (estimate_operations-coded per_each_op ops 0 0 h)

  -- The header of a list of operations: the plain one if none of them writes.
  unfoldable pub operate_head : WritePolicy FilterExpression → ℕ → ℕ → ℕ → ℕ → List ℕ
  operate_head policy read_attr write_attr fields operations =
      if write_attr == 0
      then bare_head (consistent policy.base_policy.consistency_level read_attr) write_attr fields
          operations
      else write_head policy read_attr write_attr fields operations

  Heads-if :
      (c : Bool) {m k : M (Unit {0})} {head other : List ℕ}
      → Heads m head
      → Heads k other
      → Heads (if c then m else k) (if c then head else other)
  Heads-if true h k = h
  Heads-if false h k = k

  write_operate_header-Heads :
      (policy : WritePolicy FilterExpression) (read_attr write_attr fields operations : ℕ)
      → read_attr < 64
      → (write_attr < 256) × (write_attr % 128 < 4)
      → Heads
          (write_operate_header policy read_attr write_attr fields operations)
          (operate_head policy read_attr write_attr fields operations)
  unfolding write_operate_header operate_head
  write_operate_header-Heads policy read_attr write_attr fields operations hr (hw, clear) =
      Heads-if (write_attr == 0)
        (write_header-Heads policy.base_policy read_attr write_attr fields operations hr)
        (write_header_with_policy-Heads policy read_attr write_attr fields operations hr hw clear)

  -- The user key is sent only with a write.
  abbrev pub sends_key : WritePolicy FilterExpression → ℕ → Bool
  sends_key policy write_attr = policy.send_key && not (write_attr == 0)

  order : (x y z : List ℕ) → 30 + length z + length x + length y ≡ 30 + length (x ++ (y ++ z))
  order x y z = omega (arith, length-append x (y ++ z), length-append y z)

  operated :
      (policy : WritePolicy FilterExpression) (key : Key) (ops : List (Operation FilterExpression))
      → (reads writes : ℕ) → reads < 64
      → (writes < 256) × (writes % 128 < 4)
      → IsKey key (sends_key policy writes)
      → IsFilter policy.filter_expression
      → AreCarried ops
      → Builds
          (operate policy key ops reads writes)
          (30 + length (all_operations ops))
          (operate_head policy reads writes
            (key_count key (sends_key policy writes) + filter_count policy.filter_expression)
            (length ops % 2 ^ 16))
          (key_fields key (sends_key policy writes)
            ++ (filter_field policy.filter_expression ++ all_operations ops))
  unfolding operate
  operated policy key ops reads writes hr hw hk hf ho =
      let send : Bool = sends_key policy writes in
      Builds->>= _ (estimate_key_size-Estimates key send hk) (
        Builds->>= _ (estimate_filter_size-Estimates policy.filter_expression hf) (
          Builds-size
            (counted _ policy.filter_expression _
              (λ n. write_operate_header-Heads policy reads writes n (length ops % 2 ^ 16) hr hw)
              hf)
            (Finishes->> (write_key-Sends key send hk) (
              Finishes->> (write_filter-Sends policy.filter_expression hf)
                (Finishes-last (write_operations-Sends ops ho))))
            (order (key_fields key send) (filter_field policy.filter_expression)
              (all_operations ops))))

  -- `set_operate` on a key with a digest of twenty bytes, whose user key is storable if it is sent,
  -- a packable filter and operations whose values and arguments can be packed: whatever the buffer
  -- held, it then holds the message with a bit for each thing that some operation asks for (it
  -- reads, all bins, no bins; it writes, it is to be answered on its own), the header of the policy
  -- if there is a bit for writing, the fields
  -- of the key (the user key only with a write) and of the filter, and every operation in order, if
  -- that is not longer than the largest buffer, and else the error says its size.
  pub set_operate-Builds :
      (policy : WritePolicy FilterExpression) (key : Key) (ops : List (Operation FilterExpression))
      → IsKey key (sends_key policy (operate_bits policy.respond_per_each_op ops))
      → IsFilter policy.filter_expression
      → AreCarried ops
      → (b : Buffer)
      → set_operate policy key ops b
        ≡ built b
            (operate_head policy
              (read_bits ops)
              (operate_bits policy.respond_per_each_op ops)
              (key_count key (sends_key policy (operate_bits policy.respond_per_each_op ops))
                + filter_count policy.filter_expression)
              (length ops % 2 ^ 16))
            (key_fields key (sends_key policy (operate_bits policy.respond_per_each_op ops))
              ++ (filter_field policy.filter_expression ++ all_operations ops))
  unfolding set_operate read_bits operate_bits
  set_operate-Builds policy key ops hk hf ho b =
      Builds-begin
        (Builds->>= _ (estimate_operations-Estimates policy.respond_per_each_op ops ho)
          (operated policy key ops _ _ (read_number-room _ _ _) (write_number-room _ _) hk hf ho))
        b
