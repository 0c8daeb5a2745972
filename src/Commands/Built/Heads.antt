-- ===== src/Commands/Built/Heads.antt =====
-- commands/buffer.rs: the two header writers, with the numbers of the wire format for the flags.
use aerospike_client_rust.Base.{ℕ, ◌%◌, ◌<◌, ap, ◌∙◌, List, arith}
use mathlib.Core.Path.{subst}
use aerospike_client_rust.Buffer.Endian.{Endian}
use aerospike_client_rust.Policy
use aerospike_client_rust.Policy.{BasePolicy, WritePolicy, Bins}
use aerospike_client_rust.Commands.Header.{
  write_header, write_header_with_policy, write_attr_of, info_attr_of, sent_generation,
}
use aerospike_client_rust.Commands.Scan.{scan_attr}
use aerospike_client_rust.Commands.Built.Passes.{Heads}
use aerospike_client_rust.Commands.Built.Layout.{bare_head, full_head}
use aerospike_client_rust.Commands.Built.Flags.{
  consistent, write_bits, info_bits, generation_word, expiration_word, scan_flags,
}
use aerospike_client_rust.Commands.Built.Flagged.{
  with_consistency-consistent, write_attr_of-bits, info_attr_of-bits, sent_generation-word,
  ttl-word,
}
use aerospike_client_rust.Commands.Built.Headers.{
  write_header-coded, write_header_with_policy-coded,
}

module _ ⦃endian : Endian⦄ {F : Type 0} where
  pub write_header-Heads :
      (policy : BasePolicy F) (read_attr write_attr fields operations : ℕ)
      → read_attr < 64
      → Heads
          (write_header policy read_attr write_attr fields operations)
          (bare_head (consistent policy.consistency_level read_attr) write_attr fields operations)
  write_header-Heads policy read_attr write_attr fields operations h =
      subst
        (λ reads.
          Heads (write_header policy read_attr write_attr fields operations)
            (bare_head reads write_attr fields operations))
        (with_consistency-consistent policy.consistency_level read_attr h)
        (write_header-coded policy read_attr write_attr fields operations)

  -- The header of a scan or a query, which asks for these bins.
  pub write_header_scan-Heads :
      (policy : BasePolicy F) (bins : Bins) (write_attr fields operations : ℕ)
      → Heads (write_header policy (scan_attr bins) write_attr fields operations) (
          bare_head
            (consistent policy.consistency_level (scan_flags bins))
            write_attr
            fields
            operations)
  unfolding scan_attr scan_flags
  write_header_scan-Heads policy Bins.all write_attr fields operations =
      write_header-Heads policy 1 write_attr fields operations (omega arith)
  write_header_scan-Heads policy Bins.none write_attr fields operations =
      write_header-Heads policy 33 write_attr fields operations (omega arith)
  write_header_scan-Heads policy (Bins.names names) write_attr fields operations =
      write_header-Heads policy 1 write_attr fields operations (omega arith)

  -- The header of a write: its flags, the generation and the time to live.
  unfoldable pub write_head : WritePolicy F → ℕ → ℕ → ℕ → ℕ → List ℕ
  write_head policy read_attr write_attr fields operations =
      full_head (consistent policy.base_policy.consistency_level read_attr)
        (write_bits policy write_attr) (info_bits policy)
        (generation_word policy.generation_policy policy.generation)
        (expiration_word policy.expiration) fields operations

  pub write_header_with_policy-Heads :
      (policy : WritePolicy F) (read_attr write_attr fields operations : ℕ)
      → read_attr < 64
      → write_attr < 256
      → write_attr % 128 < 4
      → Heads
          (write_header_with_policy policy read_attr write_attr fields operations)
          (write_head policy read_attr write_attr fields operations)
  unfolding write_head
  write_header_with_policy-Heads policy read_attr write_attr fields operations hr hw clear =
      let reads : ℕ = consistent policy.base_policy.consistency_level read_attr in
      subst
        (λ head.
          Heads (write_header_with_policy policy read_attr write_attr fields operations) head)
        (ap
            (λ reads.
              full_head reads (write_attr_of policy write_attr) (info_attr_of policy)
                (sent_generation policy.generation_policy policy.generation)
                (Policy.ttl policy.expiration) fields operations)
            (with_consistency-consistent policy.base_policy.consistency_level read_attr hr)
          ∙ ap
              (λ writes.
                full_head reads writes (info_attr_of policy)
                  (sent_generation policy.generation_policy policy.generation)
                  (Policy.ttl policy.expiration) fields operations)
              (write_attr_of-bits policy write_attr hw clear)
          ∙ ap
              (λ info.
                full_head reads (write_bits policy write_attr) info
                  (sent_generation policy.generation_policy policy.generation)
                  (Policy.ttl policy.expiration) fields operations)
              (info_attr_of-bits policy)
          ∙ ap
              (λ generation.
                full_head reads (write_bits policy write_attr) (info_bits policy) generation
                  (Policy.ttl policy.expiration) fields operations)
              (sent_generation-word policy.generation_policy policy.generation)
          ∙ ap
              (λ expiration.
                full_head reads (write_bits policy write_attr) (info_bits policy)
                  (generation_word policy.generation_policy policy.generation) expiration fields
                  operations)
              (ttl-word policy.expiration))
        (write_header_with_policy-coded policy read_attr write_attr fields operations)
