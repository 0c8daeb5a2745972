-- ===== src/Commands/Built/QueryEstimated.antt =====
-- commands/buffer.rs: the parts of `set_query`, the first pass against the wire format.
use aerospike_client_rust.Base.{
  ℕ, ◌+◌, ◌%◌, ◌^◌, ◌≡◌, refl, Bool, true, false, Option, none, some, List, [], ◌∷◌, ◌++◌, length,
  length-append, arith,
}
use aerospike_client_rust.Outcome.{pure, ◌>>◌}
use mathlib.Core.Path.{subst}
use aerospike_client_rust.Buffer.Endian.{Endian}
use aerospike_client_rust.Value.Wire.{payload, IsStorable, estimate_size-payload}
use aerospike_client_rust.Operations.{OperationType}
use aerospike_client_rust.Policy.{Bins}
use aerospike_client_rust.Query
use aerospike_client_rust.Query.{CollectionIndexType, index_code, Filter, Aggregation}
use aerospike_client_rust.Commands.ParticleType
use aerospike_client_rust.Commands.FieldType.{FieldType}
use aerospike_client_rust.Commands.Sizes.{grow}
use aerospike_client_rust.Query.{Statement, is_scan, are_none}
use aerospike_client_rust.Commands.Query.{
  query_count, estimate_index_name, estimate_index_type, names_size, estimate_bin_list,
  estimate_query_bins, estimate_selection, estimate_aggregation,
}
use aerospike_client_rust.Commands.Built.Passes.{
  Estimates, Estimates-pure, Estimates-lift, Estimates-grow, Estimates->>=, Estimates->>,
  Estimates-eq,
}
use aerospike_client_rust.Commands.Built.Layout.{field, args_bytes}
use aerospike_client_rust.Commands.Built.Estimated.{
  length-field, estimate_text-Estimates, estimate_args_size-Estimates, estimate_bin_names-Estimates,
}
use aerospike_client_rust.Commands.Built.Scanned.{pid_bytes, length-pid_bytes}
use aerospike_client_rust.Commands.Built.QueryLayout.{
  first, HasFirst, IsSelectable, IsCallable, index_name_count, index_type_count, bin_list_count,
  selection_count, aggregation_count, names_bytes, bin_list_bytes, index_name_field,
  index_type_field, range_bytes, bin_list_field, selection_fields, aggregation_fields,
  query_operations, aggregation_op, operation_count, range_size, bin_list_size, selected,
}

-- A statement is a scan if it has no filter.
unfoldable pub has_none : Option Filter → Bool
has_none none = true
has_none (some filter) = false

are_none-first :
    (filters : Option (List Filter))
    → HasFirst filters
    → are_none filters ≡ has_none (first filters)
unfolding are_none has_none first HasFirst
are_none-first none h = refl
are_none-first (some []) h = absurd h
are_none-first (some (filter ∷ filters)) h = refl

pub is_scan-first :
    (statement : Statement)
    → HasFirst statement.filters
    → is_scan statement ≡ has_none (first statement.filters)
unfolding is_scan
is_scan-first statement h = are_none-first statement.filters h

pub query_count-first :
    (is_scan : Bool) (filter : Option Filter) (bins : Bins)
    → is_scan ≡ has_none filter
    → query_count is_scan bins ≡ operation_count filter bins
unfolding query_count operation_count has_none
query_count-first true none (Bins.names names) h = refl
query_count-first true none Bins.all h = refl
query_count-first true none Bins.none h = refl
query_count-first true (some filter) bins h = cc
query_count-first false none bins h = cc
query_count-first false (some filter) bins h = refl

module _ ⦃endian : Endian⦄ where
  open endian use {be32}

  pub estimate_index_name-Estimates :
      (index_name : Option (List ℕ))
      → Estimates
          (estimate_index_name index_name)
          (index_name_count index_name)
          (length (index_name_field index_name))
  unfolding estimate_index_name index_name_count index_name_field
  estimate_index_name-Estimates none = Estimates-pure 0
  estimate_index_name-Estimates (some index_name) =
      estimate_text-Estimates FieldType.index_name index_name

  estimate_one :
      (n : ℕ)
      → Estimates {A = ℕ} (grow 6 >> pure 1) 1 (length (field FieldType.index_type (n ∷ [])))
  estimate_one n =
      Estimates-eq (Estimates->> (Estimates-grow 6) (Estimates-pure 1))
        (omega (arith, length-field FieldType.index_type (n ∷ [])))

  estimate_index_type-Estimates :
      (index_type : CollectionIndexType)
      → Estimates
          (estimate_index_type index_type)
          (index_type_count index_type)
          (length (index_type_field index_type))
  unfolding estimate_index_type index_type_count index_type_field
  estimate_index_type-Estimates CollectionIndexType.default = Estimates-pure 0
  estimate_index_type-Estimates CollectionIndexType.list = estimate_one 1
  estimate_index_type-Estimates CollectionIndexType.map_keys = estimate_one 2
  estimate_index_type-Estimates CollectionIndexType.map_values = estimate_one 3

  length-range_bytes :
      (filter : Filter)
      → length filter.bin_name + length (payload filter.begin) + length (payload filter.end) + 10
        ≡ length (range_bytes filter)
  unfolding range_bytes
  length-range_bytes filter =
      let first_size : List ℕ = be32 (length (payload filter.begin) % 2 ^ 32) in
      let last : List ℕ = be32 (length (payload filter.end) % 2 ^ 32) ++ payload filter.end in
      let code : ℕ = ParticleType.code filter.value_particle_type in
      omega (
        arith,
        length-append filter.bin_name (code ∷ (first_size ++ (payload filter.begin ++ last))),
        length-append first_size (payload filter.begin ++ last),
        length-append (payload filter.begin) last,
        length-append (be32 (length (payload filter.end) % 2 ^ 32)) (payload filter.end),
        endian.length-be32 (length (payload filter.begin) % 2 ^ 32),
        endian.length-be32 (length (payload filter.end) % 2 ^ 32),
      )

  estimate_size-Estimates :
      (filter : Filter)
      → IsStorable filter.begin
      → IsStorable filter.end
      → Estimates (Query.estimate_size filter) (length (range_bytes filter)) 0
  unfolding Query.estimate_size
  estimate_size-Estimates filter hb he =
      subst (λ r. Estimates (Query.estimate_size filter) r 0) (length-range_bytes filter)
        (Estimates->>= _ (Estimates-lift _ (estimate_size-payload filter.begin hb)) (
          Estimates->>= _ (Estimates-lift _ (estimate_size-payload filter.end he))
            (Estimates-pure _)))

  length-names_bytes : (names : List (List ℕ)) → names_size names ≡ length (names_bytes names)
  unfolding names_size names_bytes
  length-names_bytes [] = refl
  length-names_bytes (name ∷ names) =
      omega (arith, length-append name (names_bytes names), length-names_bytes names)

  length-bin_list :
      (names : List (List ℕ)) → 1 + names_size names ≡ length (bin_list_bytes (Bins.names names))
  unfolding bin_list_bytes
  length-bin_list names = omega (arith, length-names_bytes names)

  estimate_bin_list-Estimates :
      (bins : Bins)
      → Estimates
          (estimate_bin_list bins)
          (length (bin_list_bytes bins), bin_list_count bins)
          (length (bin_list_field bins))
  unfolding estimate_bin_list bin_list_count bin_list_field bin_list_bytes
  estimate_bin_list-Estimates Bins.all = Estimates-pure _
  estimate_bin_list-Estimates Bins.none = Estimates-pure _
  estimate_bin_list-Estimates (Bins.names names) =
      subst
        (λ r.
          Estimates (estimate_bin_list (Bins.names names)) (r, 1)
            (length (field FieldType.query_bin_list (bin_list_bytes (Bins.names names)))))
        (length-bin_list names)
        (Estimates-eq
          (Estimates->> (Estimates-grow _) (Estimates->> (Estimates-grow _) (Estimates-pure _)))
          (omega (
            arith,
            length-field FieldType.query_bin_list (bin_list_bytes (Bins.names names)),
            length-bin_list names,
          )))

  pub estimate_selection-Estimates :
      (filter : Option Filter) (bins : Bins) (partitions : List ℕ)
      → IsSelectable filter bins
      → Estimates
          (estimate_selection filter bins partitions)
          (selected filter bins)
          (length (selection_fields filter bins partitions))
  unfolding estimate_selection selected range_size bin_list_size selection_fields selection_count
      IsSelectable
  estimate_selection-Estimates none bins partitions h =
      Estimates-eq (Estimates->> (Estimates-grow _) (Estimates-pure _)) (
        omega (
          arith,
          length-field FieldType.pid_array (pid_bytes partitions),
          length-pid_bytes partitions,
        ))
  estimate_selection-Estimates (some filter) bins partitions (hb, he, hn) =
      let kind : List ℕ = index_type_field filter.collection_index_type in
      let range : List ℕ = field FieldType.index_range (1 ∷ range_bytes filter) in
      Estimates-eq
        (Estimates->>= _ (estimate_index_type-Estimates filter.collection_index_type) (
          Estimates->>= _ (estimate_size-Estimates filter hb he) (
            Estimates->> (Estimates-grow _)
              (Estimates->>= _ (estimate_bin_list-Estimates bins) (Estimates-pure _)))))
        (omega (
          arith,
          length-append kind (range ++ bin_list_field bins),
          length-append range (bin_list_field bins),
          length-field FieldType.index_range (1 ∷ range_bytes filter),
        ))

  pub estimate_aggregation-Estimates :
      (bins : Bins) (aggregation : Option Aggregation)
      → IsCallable aggregation
      → Estimates
          (estimate_aggregation aggregation)
          (aggregation_count aggregation)
          (length (aggregation_fields bins aggregation))
  unfolding estimate_aggregation aggregation_count aggregation_fields IsCallable
  estimate_aggregation-Estimates bins none h = Estimates-pure 0
  estimate_aggregation-Estimates bins (some aggregation) h =
      let op : List ℕ = field FieldType.udf_op (aggregation_op bins ∷ []) in
      let unit : List ℕ = field FieldType.udf_package_name aggregation.package_name in
      let function : List ℕ = field FieldType.udf_function aggregation.function_name in
      let args : List ℕ = field FieldType.udf_arg_list (args_bytes aggregation.function_args) in
      Estimates-eq
        (Estimates->> (Estimates-grow _) (
          Estimates->> (Estimates-grow _) (
            Estimates->> (Estimates-grow _) (
              Estimates->> (estimate_args_size-Estimates aggregation.function_args h)
                (Estimates-pure 4)))))
        (omega (
          arith,
          length-append op (unit ++ (function ++ args)),
          length-append unit (function ++ args),
          length-append function args,
          length-field FieldType.udf_op (aggregation_op bins ∷ []),
          length-field FieldType.udf_package_name aggregation.package_name,
          length-field FieldType.udf_function aggregation.function_name,
        ))

  pub estimate_query_bins-Estimates :
      (is_scan : Bool) (filter : Option Filter) (bins : Bins)
      → is_scan ≡ has_none filter
      → Estimates (estimate_query_bins is_scan bins) tt (length (query_operations filter bins))
  unfolding estimate_query_bins query_operations has_none
  estimate_query_bins-Estimates true none (Bins.names names) h =
      estimate_bin_names-Estimates OperationType.read names
  estimate_query_bins-Estimates true none Bins.all h = Estimates-pure tt
  estimate_query_bins-Estimates true none Bins.none h = Estimates-pure tt
  estimate_query_bins-Estimates true (some filter) bins h = cc
  estimate_query_bins-Estimates false none bins h = cc
  estimate_query_bins-Estimates false (some filter) bins h = Estimates-pure tt
