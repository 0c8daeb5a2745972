-- ===== src/Tests/Querying.antt =====
-- A query on a secondary index with an aggregation, and the timeout of a message.
use aerospike_client_rust.Base.{
  ℕ, ◌%◌, ◌^◌, ◌≡◌, refl, false, some, List, [], ◌∷◌, ◌++◌, replicate, arith, if◌then◌else◌, pos,
}
use aerospike_client_rust.Outcome.{ok}
use aerospike_client_rust.Buffer.{Buffer}
use aerospike_client_rust.Value.{Value, no_values, values}
use aerospike_client_rust.Value.Wire.{IsStorable}
use aerospike_client_rust.Msgpack.Format.{IsPackable}
use aerospike_client_rust.Policy.{ConsistencyLevel, Bins}
use aerospike_client_rust.Query
use aerospike_client_rust.Query.{CollectionIndexType, Filter, Statement}
use aerospike_client_rust.Commands.ParticleType.{ParticleType}
use aerospike_client_rust.Commands.Built.Flags.{consistent, scan_flags}
use aerospike_client_rust.Commands.Query.{QueryPolicy, set_query}
use aerospike_client_rust.Commands.Timeout.{write_timeout, write_timeout-message}
use aerospike_client_rust.Commands.Built.Frames.{built, message}
use aerospike_client_rust.Commands.Built.Layout.{AreArguments, bare_head}
use aerospike_client_rust.Commands.Built.QueryLayout.{
  operation_count, first, HasFirst, HasNames, IsSelectable, IsCallable,
}
use aerospike_client_rust.Commands.Built.Queried.{query_body, query_fields, set_query-Builds}
use aerospike_client_rust.Tests.Crates.{by_division, texts}
use aerospike_client_rust.Tests.Sending.{a_buffer, a_filter, a_filter-IsFilter, read_policy}

abbrev query_policy : QueryPolicy (List ℕ)
query_policy = record { base_policy = read_policy; filter_expression = a_filter }

abbrev a_range : Filter
a_range = record {
  bin_name = 97 ∷ [];
  collection_index_type = CollectionIndexType.map_keys;
  value_particle_type = ParticleType.integer;
  begin = Value.int (pos 0);
  end = Value.int (pos 100);
}

-- The statement as the client's calls make it.
abbrev a_statement : Statement
a_statement =
    Query.set_aggregate_function
      (Query.add_filter (Query.new (116 ∷ []) (115 ∷ []) (Bins.names ((98 ∷ []) ∷ []))) a_range)
      (112 ∷ []) (102 ∷ []) (some (values (Value.int (pos 1)) no_values))

a_statement-HasFirst : HasFirst a_statement.filters
unfolding HasFirst Query.new Query.add_filter Query.push_filter Query.set_aggregate_function
a_statement-HasFirst = tt

a_statement-IsSelectable : IsSelectable (first a_statement.filters) a_statement.bins
unfolding IsSelectable HasNames first Query.new Query.add_filter Query.push_filter
    Query.set_aggregate_function IsStorable
a_statement-IsSelectable = (tt, tt, tt)

a_statement-IsCallable : IsCallable a_statement.aggregation
unfolding IsCallable AreArguments Query.new Query.add_filter Query.push_filter
    Query.set_aggregate_function IsPackable
a_statement-IsCallable = (tt, tt)

set_query-Builds_example :
    set_query query_policy a_statement false 9 [] a_buffer
    ≡ built a_buffer
        (bare_head
          (consistent ConsistencyLevel.consistency_all (scan_flags a_statement.bins))
          (if false then 1 else 0)
          (query_fields query_policy a_statement)
          (operation_count (first a_statement.filters) a_statement.bins % 2 ^ 16))
        (query_body query_policy a_statement 9 [])
set_query-Builds_example =
    set_query-Builds query_policy a_statement false 9 [] a_filter-IsFilter a_statement-HasFirst
      a_statement-IsSelectable a_statement-IsCallable a_buffer

-- A message without fields, as a delete of no policy.
abbrev front_bytes : List ℕ
front_bytes = 22 ∷ 0 ∷ 3 ∷ replicate 11 0

abbrev sent_buffer : Buffer
sent_buffer = record {
  data_buffer = message (front_bytes ++ (replicate 4 0 ++ replicate 4 0)) (7 ∷ []);
  data_offset = 8;
  reclaim_threshold = 65536;
}

write_timeout-message_example :
    write_timeout (some 30250) sent_buffer
    ≡ ok (
      tt,
      record sent_buffer {
        data_buffer = message (front_bytes ++ (by_division.be32 30250 ++ replicate 4 0)) (7 ∷ []);
      },
    )
write_timeout-message_example =
    write_timeout-message 30250 front_bytes (replicate 4 0) (replicate 4 0) (7 ∷ []) sent_buffer
      (omega arith) refl refl refl
