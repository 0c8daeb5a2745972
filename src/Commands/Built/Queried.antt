-- ===== src/Commands/Built/Queried.antt =====
-- commands/buffer.rs: `set_query` against the wire format.
use aerospike_client_rust.Base.{
  ℕ, ◌+◌, ◌%◌, ◌^◌, ◌≡◌, refl, ◌∙◌, Bool, Option, none, some, List, [], ◌∷◌, ◌++◌, length,
  length-append, arith, if◌then◌else◌,
}
use aerospike_client_rust.Outcome.{ok, >>=-ok}
use aerospike_client_rust.Buffer.{Buffer}
use aerospike_client_rust.Buffer.Endian.{Endian}
use aerospike_client_rust.Expressions.{Expressions}
use aerospike_client_rust.Query.{Filter, Statement, is_scan}
use aerospike_client_rust.Commands.FieldType.{FieldType}
use aerospike_client_rust.Commands.Built.Flags.{consistent, scan_flags}
use mathlib.Core.Path.{subst}
use aerospike_client_rust.Commands.Scan.{scan_attr}
use aerospike_client_rust.Commands.Header.{write_header}
use aerospike_client_rust.Policy.{BasePolicy}
use aerospike_client_rust.Commands.Built.Passes.{Heads}
use aerospike_client_rust.Commands.Query.{QueryPolicy, first_filter, query_count, set_query}
use aerospike_client_rust.Commands.Built.Passes.{Estimates-grow}
use aerospike_client_rust.Commands.Built.Frames.{
  built, Finishes-last, Finishes->>, Builds-size, Builds->>=, Builds->>, Builds-begin,
}
use aerospike_client_rust.Commands.Built.Layout.{
  IsFilter, text_count, filter_count, field, text_field, filter_field, bare_head,
}
use aerospike_client_rust.Commands.Built.Estimated.{
  length-field, estimate_text-Estimates, estimate_filter_size-Estimates,
}
use aerospike_client_rust.Commands.Built.Written.{write_text-Sends, write_filter-Sends}
use aerospike_client_rust.Commands.Built.Messages.{counted}
use aerospike_client_rust.Commands.Built.Heads.{write_header_scan-Heads}
use aerospike_client_rust.Commands.Built.Scanned.{write_task_id-Sends}
use aerospike_client_rust.Commands.Built.QueryLayout.{
  first, HasFirst, IsSelectable, IsCallable, index_name_count, selection_count, aggregation_count,
  index_name_field, selection_fields, aggregation_fields, query_operations, operation_count,
  selected,
}
use aerospike_client_rust.Commands.Built.QueryEstimated.{
  estimate_index_name-Estimates, estimate_selection-Estimates, estimate_aggregation-Estimates,
  estimate_query_bins-Estimates, has_none, is_scan-first, query_count-first,
}
use aerospike_client_rust.Commands.Built.QueryWritten.{
  write_index_name-Sends, write_selection-Sends, write_aggregation-Sends, write_query_bins-Sends,
}
use aerospike_client_rust.Commands.Built.Scanned.{lengths_7}

first_filter-first :
    (filters : Option (List Filter)) (b : Buffer)
    → HasFirst filters
    → first_filter filters b ≡ ok (first filters, b)
unfolding first_filter first HasFirst
first_filter-first none b h = refl
first_filter-first (some []) b h = absurd h
first_filter-first (some (filter ∷ filters)) b h = refl

lengths_8 :
    (a b c d e f g h : List ℕ)
    → length (a ++ (b ++ (c ++ (d ++ (e ++ (f ++ (g ++ h)))))))
      ≡ length a + length b + length c + length d + length e + length f + length g + length h
lengths_8 a b c d e f g h = omega (arith, lengths_7 a b c d e f (g ++ h), length-append g h)

query_header-Heads :
    ⦃endian : Endian⦄ {F : Type 0}
    → (policy : BasePolicy F) (statement : Statement) → (write_attr fields : ℕ)
    → HasFirst statement.filters
    → Heads
        (write_header policy
          (scan_attr statement.bins)
          write_attr
          fields
          (query_count (is_scan statement) statement.bins % 2 ^ 16))
        (bare_head
          (consistent policy.consistency_level (scan_flags statement.bins))
          write_attr
          fields
          (operation_count (first statement.filters) statement.bins % 2 ^ 16))
query_header-Heads policy statement write_attr fields h =
    let filter : Option Filter = first statement.filters in
    subst
      (λ count.
        Heads
          (write_header policy (scan_attr statement.bins) write_attr fields
            (query_count (is_scan statement) statement.bins % 2 ^ 16))
          (bare_head (consistent policy.consistency_level (scan_flags statement.bins)) write_attr
            fields (count % 2 ^ 16)))
      (query_count-first (is_scan statement) filter statement.bins (is_scan-first statement h))
      (write_header_scan-Heads policy statement.bins write_attr fields
        (query_count (is_scan statement) statement.bins % 2 ^ 16))

module _ ⦃endian : Endian⦄ ⦃exprs : Expressions⦄ where
  open endian use {be64}
  open exprs use {FilterExpression}

  -- The fields of a query, and one operation for every named bin if it is a scan.
  unfoldable pub query_body : QueryPolicy FilterExpression → Statement → ℕ → List ℕ → List ℕ
  query_body policy statement task_id partitions =
      text_field FieldType.namespace statement.namespace
      ++ (index_name_field statement.index_name
          ++ (text_field FieldType.table statement.set_name
              ++ (field FieldType.tran_id (be64 task_id)
                  ++ (selection_fields (first statement.filters) statement.bins partitions
                      ++ (filter_field policy.filter_expression
                          ++ (aggregation_fields statement.bins statement.aggregation
                              ++ query_operations (first statement.filters) statement.bins))))))

  unfoldable pub query_fields : QueryPolicy FilterExpression → Statement → ℕ
  query_fields policy statement =
      text_count statement.namespace
      + text_count statement.set_name
      + index_name_count statement.index_name
      + 1
      + selection_count (first statement.filters) statement.bins
      + filter_count policy.filter_expression
      + aggregation_count statement.aggregation

  length-query_body :
      (policy : QueryPolicy FilterExpression) (statement : Statement) (task_id : ℕ)
      (partitions : List ℕ)
      → 30
          + length (text_field FieldType.namespace statement.namespace)
          + length (text_field FieldType.table statement.set_name)
          + length (index_name_field statement.index_name)
          + 13
          + length (selection_fields (first statement.filters) statement.bins partitions)
          + length (filter_field policy.filter_expression)
          + length (aggregation_fields statement.bins statement.aggregation)
          + length (query_operations (first statement.filters) statement.bins)
        ≡ 30 + length (query_body policy statement task_id partitions)
  unfolding query_body
  length-query_body policy statement task_id partitions = omega (
    arith,
    lengths_8 (text_field FieldType.namespace statement.namespace)
        (index_name_field statement.index_name) (text_field FieldType.table statement.set_name)
        (field FieldType.tran_id (be64 task_id))
        (selection_fields (first statement.filters) statement.bins partitions)
        (filter_field policy.filter_expression)
        (aggregation_fields statement.bins statement.aggregation)
        (query_operations (first statement.filters) statement.bins),
    length-field FieldType.tran_id (be64 task_id),
    endian.length-be64 task_id,
  )

  -- `set_query` with a packable filter expression, for a statement whose list of filters is not
  -- empty if there is one, whose first filter has storable ends and comes with at least one name if
  -- bins are named, and whose aggregation has packable arguments: whatever the buffer held, it then
  -- holds the message whose header counts the fields that follow, and whose bins are operations if
  -- it has no filter and a list of names if it has one. If the message is longer than the largest
  -- buffer, the error says its size.
  pub set_query-Builds :
      (policy : QueryPolicy FilterExpression) (statement : Statement) (write : Bool) (task_id : ℕ)
      (partitions : List ℕ)
      → IsFilter policy.filter_expression
      → HasFirst statement.filters
      → IsSelectable (first statement.filters) statement.bins
      → IsCallable statement.aggregation
      → (b : Buffer)
      → set_query policy statement write task_id partitions b
        ≡ built b
            (bare_head
              (consistent policy.base_policy.consistency_level (scan_flags statement.bins))
              (if write then 1 else 0)
              (query_fields policy statement)
              (operation_count (first statement.filters) statement.bins % 2 ^ 16))
            (query_body policy statement task_id partitions)
  unfolding set_query query_body query_fields selected
  set_query-Builds policy statement write task_id partitions hf hs hq ha b =
      let filter : Option Filter = first statement.filters in
      let scan : is_scan statement ≡ has_none filter = is_scan-first statement hs in
      >>=-ok (first_filter statement.filters) _ (first_filter-first statement.filters b hs)
      ∙ Builds-begin
          (Builds->>= _ (estimate_text-Estimates FieldType.namespace statement.namespace) (
            Builds->>= _ (estimate_text-Estimates FieldType.table statement.set_name) (
              Builds->>= _ (estimate_index_name-Estimates statement.index_name) (
                Builds->> (Estimates-grow 13) (
                  Builds->>= _ (estimate_selection-Estimates filter statement.bins partitions hq) (
                    Builds->>= _ (estimate_filter_size-Estimates policy.filter_expression hf) (
                      Builds->>= _
                        (estimate_aggregation-Estimates statement.bins statement.aggregation ha)
                        (Builds->>
                          (estimate_query_bins-Estimates (is_scan statement) filter statement.bins
                            scan)
                          (Builds-size
                            (counted _ policy.filter_expression _
                              (λ n.
                                query_header-Heads policy.base_policy statement
                                  (if write then 1 else 0)
                                  (n + aggregation_count statement.aggregation) hs)
                              hf)
                            (Finishes->> (write_text-Sends FieldType.namespace statement.namespace)
                              (Finishes->> (write_index_name-Sends statement.index_name) (
                                Finishes->> (write_text-Sends FieldType.table statement.set_name) (
                                  Finishes->> (write_task_id-Sends task_id) (
                                    Finishes->>
                                      (write_selection-Sends filter statement.bins partitions hq)
                                      (Finishes->> (write_filter-Sends policy.filter_expression hf)
                                        (Finishes->>
                                          (write_aggregation-Sends statement.bins
                                            statement.aggregation ha)
                                          (Finishes-last (
                                            write_query_bins-Sends (is_scan statement) filter
                                              statement.bins scan)))))))))
                            (length-query_body policy statement task_id partitions))))))))))
          b
