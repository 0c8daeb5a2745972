-- ===== src/Tests/Batching.antt =====
-- A batch of three reads, of which the second repeats the header of the first.
use aerospike_client_rust.Base.{
  ℕ, ◌+◌, ◌%◌, ◌^◌, ◌≡◌, refl, true, false, List, [], ◌∷◌, ◌++◌, length, if◌then◌else◌,
}
use aerospike_client_rust.Policy.{ConsistencyLevel, Bins}
use aerospike_client_rust.Commands.FieldType.{FieldType}
use aerospike_client_rust.Commands.Built.Flags.{consistent}
use aerospike_client_rust.Commands.Batch.{BatchPolicy, BatchRead, set_batch_read}
use aerospike_client_rust.Commands.Built.Frames.{built}
use aerospike_client_rust.Commands.Built.Layout.{filter_count, field, bare_head}
use aerospike_client_rust.Commands.Built.BatchLayout.{Picks}
use aerospike_client_rust.Commands.Built.Batched.{
  batch_body, own_rows, plain_policy, set_batch_read-Builds, set_batch_read-plain,
}
use aerospike_client_rust.Tests.Crates.{by_division, texts}
use aerospike_client_rust.Tests.Sending.{a_buffer, a_filter, a_filter-IsFilter, a_key, read_policy}

abbrev batch_policy : BatchPolicy (List ℕ)
batch_policy = record {
  base_policy = read_policy;
  allow_inline = true;
  send_set_name = true;
  filter_expression = a_filter;
}

abbrev name_read : BatchRead
name_read = record { key = a_key; bins = Bins.names ((97 ∷ []) ∷ []) }

abbrev header_read : BatchRead
header_read = record { key = a_key; bins = Bins.none }

abbrev batch_reads : List BatchRead
batch_reads = name_read ∷ name_read ∷ header_read ∷ []

abbrev some_offsets : List ℕ
some_offsets = 0 ∷ 1 ∷ 2 ∷ []

some_offsets-Picks : Picks batch_reads some_offsets batch_reads
unfolding Picks
some_offsets-Picks = (refl, (refl, (refl, tt)))

set_batch_read-Builds_example :
    set_batch_read batch_policy batch_reads some_offsets a_buffer
    ≡ built a_buffer
        (bare_head (consistent ConsistencyLevel.consistency_all 9) 0 (1 + filter_count a_filter) 0)
        (batch_body batch_policy some_offsets batch_reads)
set_batch_read-Builds_example =
    set_batch_read-Builds batch_policy batch_reads some_offsets batch_reads a_filter-IsFilter
      some_offsets-Picks a_buffer

set_batch_read-plain_example :
    set_batch_read (plain_policy read_policy false) batch_reads some_offsets a_buffer
    ≡ built a_buffer (bare_head (consistent ConsistencyLevel.consistency_all 9) 0 1 0) (
        field FieldType.batch_index (
          by_division.be32 (length some_offsets % 2 ^ 32)
          ++ ((if false then 1 else 0) ∷ own_rows some_offsets batch_reads)))
set_batch_read-plain_example =
    set_batch_read-plain read_policy false batch_reads some_offsets batch_reads some_offsets-Picks
      a_buffer
