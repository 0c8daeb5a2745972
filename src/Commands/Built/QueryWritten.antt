-- ===== src/Commands/Built/QueryWritten.antt =====
-- commands/buffer.rs: the parts of `set_query`, the second pass against the wire format.
use aerospike_client_rust.Base.{
  ℕ, ◌+◌, ◌%◌, ◌^◌, refl, Bool, true, false, Option, none, some, List, [], ◌∷◌, ◌≡◌, length, arith,
}
use aerospike_client_rust.Outcome.{pure, ◌>>◌}
use aerospike_client_rust.Buffer.Writes.{write_u8}
use aerospike_client_rust.Commands.Fields.{write_field_header}
use aerospike_client_rust.Buffer.Endian.{Endian}
use aerospike_client_rust.Buffer.Building
use aerospike_client_rust.Buffer.Building.{Writes}
use aerospike_client_rust.Value.Wire.{payload, IsStorable, estimate_size-payload, write_to-Writes}
use aerospike_client_rust.Operations.{OperationType}
use aerospike_client_rust.Policy.{Bins}
use aerospike_client_rust.Query
use aerospike_client_rust.Query.{
  CollectionIndexType, index_code, Filter, Aggregation, Statement, is_scan,
}
use aerospike_client_rust.Commands.ParticleType
use aerospike_client_rust.Commands.FieldType.{FieldType}
use aerospike_client_rust.Commands.Query.{
  udf_op_of, write_index_name, write_index_type, write_index_range, write_list_names,
  write_bin_list, write_selection, write_udf_op, write_aggregation, write_query_bins,
}
use aerospike_client_rust.Commands.Built.Passes.{Sends, Sends-pure, Sends->>}
use aerospike_client_rust.Commands.Built.Layout.{field}
use aerospike_client_rust.Commands.Built.Written.{
  Sends-field, write_text-Sends, write_field_string-Sends, write_args-Sends, write_bin_names-Sends,
}
use aerospike_client_rust.Commands.Built.Scanned.{write_partitions-Sends}
use aerospike_client_rust.Commands.Built.QueryEstimated.{has_none}
use aerospike_client_rust.Commands.Built.QueryLayout.{
  aggregation_op, HasNames, IsSelectable, IsCallable, names_bytes, bin_list_bytes, index_name_field,
  index_type_field, range_bytes, bin_list_field, selection_fields, aggregation_fields,
  query_operations, range_size, bin_list_size, selected,
}

module _ ⦃endian : Endian⦄ where
  open endian use {be32, be64}

  pub write_index_name-Sends :
      (index_name : Option (List ℕ))
      → Sends (write_index_name index_name) tt (index_name_field index_name)
  unfolding write_index_name index_name_field
  write_index_name-Sends none = Sends-pure tt
  write_index_name-Sends (some index_name) = write_text-Sends FieldType.index_name index_name

  byte_field-Sends :
      (ftype : FieldType) (v : ℕ)
      → Sends (write_field_header 1 ftype >> (write_u8 v >> pure tt)) tt (field ftype (v ∷ []))
  byte_field-Sends ftype v =
      Sends-field 1 ftype (v ∷ []) refl (Building.Writes-last tt (Building.Writes-u8 v))

  write_index_type-Sends :
      (index_type : CollectionIndexType)
      → Sends (write_index_type index_type) tt (index_type_field index_type)
  unfolding write_index_type index_type_field index_code
  write_index_type-Sends CollectionIndexType.default = Sends-pure tt
  write_index_type-Sends CollectionIndexType.list = byte_field-Sends FieldType.index_type 1
  write_index_type-Sends CollectionIndexType.map_keys = byte_field-Sends FieldType.index_type 2
  write_index_type-Sends CollectionIndexType.map_values = byte_field-Sends FieldType.index_type 3

  write-Writes :
      (filter : Filter)
      → IsStorable filter.begin
      → IsStorable filter.end
      → Writes (Query.write filter) tt (range_bytes filter)
  unfolding Query.write range_bytes
  write-Writes filter hb he =
      Building.Writes->> (Building.Writes-u8 (length filter.bin_name % 2 ^ 8)) (
        Building.Writes->> (Building.Writes-str filter.bin_name) (
          Building.Writes->> (Building.Writes-u8 (ParticleType.code filter.value_particle_type)) (
            Building.Writes->>= _ (Building.Writes-lift _ (estimate_size-payload filter.begin hb)) (
              Building.Writes->> (Building.Writes-u32 (length (payload filter.begin) % 2 ^ 32)) (
                Building.Writes->> (write_to-Writes filter.begin hb) (
                  Building.Writes->>= _
                    (Building.Writes-lift _ (estimate_size-payload filter.end he))
                    (Building.Writes->> (Building.Writes-u32 (length (payload filter.end) % 2 ^ 32))
                      (Building.Writes-last tt (write_to-Writes filter.end he)))))))))

  write_index_range-Sends :
      (filter : Filter)
      → IsStorable filter.begin
      → IsStorable filter.end
      → Sends
          (write_index_range filter (1 + length (range_bytes filter)))
          tt
          (field FieldType.index_range (1 ∷ range_bytes filter))
  unfolding write_index_range
  write_index_range-Sends filter hb he =
      Sends-field _ FieldType.index_range (1 ∷ range_bytes filter) (omega arith)
        (Building.Writes->> (Building.Writes-u8 1) (write-Writes filter hb he))

  write_list_names-Writes :
      (names : List (List ℕ)) → Writes (write_list_names names) tt (names_bytes names)
  unfolding write_list_names names_bytes
  write_list_names-Writes [] = Building.Writes-pure tt
  write_list_names-Writes (name ∷ names) =
      Building.Writes->> (Building.Writes-u8 (length name % 2 ^ 8))
        (Building.Writes->> (Building.Writes-str name) (write_list_names-Writes names))

  write_bin_list-Sends :
      (bins : Bins)
      → HasNames bins
      → Sends (write_bin_list bins (length (bin_list_bytes bins))) tt (bin_list_field bins)
  unfolding write_bin_list bin_list_bytes bin_list_field HasNames
  write_bin_list-Sends Bins.all h = Sends-pure tt
  write_bin_list-Sends Bins.none h = Sends-pure tt
  write_bin_list-Sends (Bins.names []) h = absurd h
  write_bin_list-Sends (Bins.names (name ∷ names)) h =
      Sends-field _ FieldType.query_bin_list (bin_list_bytes (Bins.names (name ∷ names))) refl (
        Building.Writes->> (Building.Writes-u8 (length (name ∷ names) % 2 ^ 8))
          (write_list_names-Writes (name ∷ names)))

  pub write_selection-Sends :
      (filter : Option Filter) (bins : Bins) (partitions : List ℕ)
      → IsSelectable filter bins
      → Sends
          (write_selection filter bins partitions (selected filter bins))
          tt
          (selection_fields filter bins partitions)
  unfolding write_selection selected range_size bin_list_size selection_fields IsSelectable
  write_selection-Sends none bins partitions h = write_partitions-Sends partitions
  write_selection-Sends (some filter) bins partitions (hb, he, hn) =
      Sends->> (write_index_type-Sends filter.collection_index_type)
        (Sends->> (write_index_range-Sends filter hb he) (write_bin_list-Sends bins hn))

  write_udf_op-Sends :
      (bins : Bins)
      → Sends (write_udf_op bins) tt (field FieldType.udf_op (aggregation_op bins ∷ []))
  unfolding write_udf_op udf_op_of aggregation_op
  write_udf_op-Sends Bins.all = byte_field-Sends FieldType.udf_op 1
  write_udf_op-Sends Bins.none = byte_field-Sends FieldType.udf_op 2
  write_udf_op-Sends (Bins.names names) = byte_field-Sends FieldType.udf_op 1

  pub write_aggregation-Sends :
      (bins : Bins) (aggregation : Option Aggregation)
      → IsCallable aggregation
      → Sends (write_aggregation bins aggregation) tt (aggregation_fields bins aggregation)
  unfolding write_aggregation aggregation_fields IsCallable
  write_aggregation-Sends bins none h = Sends-pure tt
  write_aggregation-Sends bins (some aggregation) h = Sends->> (write_udf_op-Sends bins) (
      Sends->> (write_field_string-Sends FieldType.udf_package_name aggregation.package_name) (
        Sends->> (write_field_string-Sends FieldType.udf_function aggregation.function_name)
          (write_args-Sends FieldType.udf_arg_list aggregation.function_args h)))

  pub write_query_bins-Sends :
      (is_scan : Bool) (filter : Option Filter) (bins : Bins)
      → is_scan ≡ has_none filter
      → Sends (write_query_bins is_scan bins) tt (query_operations filter bins)
  unfolding write_query_bins query_operations has_none
  write_query_bins-Sends true none (Bins.names names) h =
      write_bin_names-Sends OperationType.read names
  write_query_bins-Sends true none Bins.all h = Sends-pure tt
  write_query_bins-Sends true none Bins.none h = Sends-pure tt
  write_query_bins-Sends true (some filter) bins h = cc
  write_query_bins-Sends false none bins h = cc
  write_query_bins-Sends false (some filter) bins h = Sends-pure tt
