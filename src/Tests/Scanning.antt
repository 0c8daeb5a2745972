-- ===== src/Tests/Scanning.antt =====
-- A scan of two bins in three partitions, with a filter.
use aerospike_client_rust.Base.{ℕ, ◌+◌, ◌%◌, ◌^◌, ◌≡◌, List, [], ◌∷◌}
use aerospike_client_rust.Policy.{ConsistencyLevel, Bins}
use aerospike_client_rust.Commands.Built.Flags.{consistent, scan_flags}
use aerospike_client_rust.Commands.Scan.{ScanPolicy, set_scan}
use aerospike_client_rust.Commands.Built.Frames.{built}
use aerospike_client_rust.Commands.Built.Layout.{filter_count, text_count, bare_head}
use aerospike_client_rust.Commands.Built.Scanned.{named_count, scan_body, set_scan-Builds}
use aerospike_client_rust.Tests.Crates.{by_division, texts}
use aerospike_client_rust.Tests.Sending.{a_buffer, a_filter, a_filter-IsFilter, read_policy}

abbrev scan_policy : ScanPolicy (List ℕ)
scan_policy = record {
  base_policy = read_policy;
  socket_timeout = 10000;
  filter_expression = a_filter;
}

abbrev two_names : Bins
two_names = Bins.names ((97 ∷ []) ∷ (98 ∷ []) ∷ [])

set_scan-Builds_example :
    set_scan scan_policy (116 ∷ []) [] two_names 77 (0 ∷ 1 ∷ 4095 ∷ []) a_buffer
    ≡ built a_buffer
        (bare_head
          (consistent ConsistencyLevel.consistency_all (scan_flags two_names))
          0
          (0 + filter_count a_filter + text_count (116 ∷ []) + text_count [] + 1 + 1 + 1)
          (named_count two_names % 2 ^ 16))
        (scan_body scan_policy (116 ∷ []) [] two_names 77 (0 ∷ 1 ∷ 4095 ∷ []))
set_scan-Builds_example =
    set_scan-Builds scan_policy (116 ∷ []) [] two_names 77 (0 ∷ 1 ∷ 4095 ∷ []) a_filter-IsFilter
      a_buffer
