-- ===== src/Commands/Built/BatchRows.antt =====
-- commands/buffer.rs: the reads of a batch, the second pass against the wire format.
use aerospike_client_rust.Base.{
  ℕ, ◌%◌, ◌^◌, ◌≡◌, ◌↔◌, sym, Bool, true, false, Option, some, List, [], ◌∷◌, ◌++◌, length,
  append-nil, get_elem?, if◌then◌else◌,
}
use aerospike_client_rust.Buffer.Writes.{write_u8, write_u16}
use aerospike_client_rust.Outcome.{pure, ◌>>◌}
use aerospike_client_rust.Buffer.{M}
use aerospike_client_rust.Buffer.Endian.{Endian}
use aerospike_client_rust.Buffer.Building
use aerospike_client_rust.Buffer.Building.{Writes}
use aerospike_client_rust.Key.{Key}
use aerospike_client_rust.Operations.{OperationType}
use aerospike_client_rust.Policy.{Bins}
use aerospike_client_rust.Commands.FieldType.{FieldType}
use aerospike_client_rust.Commands.Fields.{write_field_string}
use aerospike_client_rust.Commands.Batch.{
  BatchRead, repeats, get, field_count_row, write_batch_set, write_batch_row, write_batch_header,
  write_batch_reads,
}
use aerospike_client_rust.Commands.Built.BatchHeaders.{repeats-Repeats, decided, repeats?}
use aerospike_client_rust.Commands.Built.Passes.{
  Sends, Sends-pure, Sends-Writes, Sends-last, Sends->>=, Sends->>, Sends-eq,
}
use aerospike_client_rust.Commands.Built.Layout.{field}
use aerospike_client_rust.Commands.Built.Written.{write_field_string-Sends, write_bin_names-Sends}
use aerospike_client_rust.Commands.Built.Scanned.{named_operations, named_count}
use aerospike_client_rust.Commands.Built.BatchLayout.{
  row_fields, Picks, bins_attr, set_field, batch_header, batch_selection, batch_rows,
}

module _ ⦃endian : Endian⦄ where
  open endian use {be16, be32}

  write_batch_set-Sends :
      (send_set_name : Bool) (key : Key)
      → Sends (write_batch_set send_set_name key) tt (set_field send_set_name key)
  unfolding write_batch_set set_field
  write_batch_set-Sends true key = write_field_string-Sends FieldType.table key.set_name
  write_batch_set-Sends false key = Sends-pure tt

  row_count-Sends :
      (send_set_name : Bool)
      → Sends (write_u16 (field_count_row send_set_name)) 2 (be16 (row_fields send_set_name))
  unfolding field_count_row row_fields
  row_count-Sends true = Sends-Writes (Building.Writes-u16 2)
  row_count-Sends false = Sends-Writes (Building.Writes-u16 1)

  -- What stands in a row before the set and the operations.
  row-Sends :
      {k : M (Unit {0})} (attr count : ℕ) (send_set_name : Bool) (key : Key) {bs : List ℕ}
      → Sends k tt bs
      → Sends
          (write_u8 0
            >> (write_u8 attr
                >> (write_u16 (field_count_row send_set_name)
                    >> (write_u16 count
                        >> (write_field_string key.namespace FieldType.namespace >> k)))))
          tt
          (0
            ∷ attr
            ∷ (be16 (row_fields send_set_name)
                ++ (be16 count ++ (field FieldType.namespace key.namespace ++ bs))))
  row-Sends attr count send_set_name key w = Sends->> (Sends-Writes (Building.Writes-u8 0)) (
      Sends->> (Sends-Writes (Building.Writes-u8 attr)) (
        Sends->> (row_count-Sends send_set_name) (
          Sends->> (Sends-Writes (Building.Writes-u16 count))
            (Sends->> (write_field_string-Sends FieldType.namespace key.namespace) w))))

  write_row-Sends :
      (send_set_name : Bool) (key : Key) (bins : Bins)
      → Sends
          (write_batch_header send_set_name (record { key = key; bins = bins }))
          tt
          (batch_header send_set_name (record { key = key; bins = bins }))
  unfolding write_batch_header write_batch_row batch_header bins_attr named_operations named_count
  write_row-Sends send_set_name key Bins.all =
      row-Sends 3 0 send_set_name key
        (Sends-eq (write_batch_set-Sends send_set_name key) (sym (append-nil _)))
  write_row-Sends send_set_name key Bins.none =
      row-Sends 33 0 send_set_name key
        (Sends-eq (write_batch_set-Sends send_set_name key) (sym (append-nil _)))
  write_row-Sends send_set_name key (Bins.names names) =
      row-Sends 1 (length names % 2 ^ 16) send_set_name key (
        Sends->> (write_batch_set-Sends send_set_name key)
          (write_bin_names-Sends OperationType.read names))

  selection-Sends :
      {P : Type 0} (same : Bool) (same-P : (same ≡ true) ↔ P) (send_set_name : Bool)
      (batch_read : BatchRead)
      → Sends
          (if same then write_u8 1 >> pure tt else write_batch_header send_set_name batch_read)
          tt
          (batch_selection (decided same same-P) send_set_name batch_read)
  unfolding batch_selection decided
  selection-Sends true h send_set_name batch_read =
      Sends-last tt (Sends-Writes (Building.Writes-u8 1))
  selection-Sends false h send_set_name batch_read =
      write_row-Sends send_set_name batch_read.key batch_read.bins

  Sends-get :
      (batch_reads : List BatchRead) (idx : ℕ) (batch_read : BatchRead)
      → get_elem? batch_reads idx ≡ some batch_read
      → Sends (get batch_reads idx) batch_read []
  unfolding get
  Sends-get batch_reads idx batch_read e =
      Sends-Writes
        (record { runs = λ b h. rw (e, get) ((Building.Writes-pure batch_read).runs b h) })

  pub write_batch_reads-Sends :
      (send_set_name : Bool) (batch_reads : List BatchRead) (prev : Option BatchRead)
      (offsets : List ℕ) (picked : List BatchRead)
      → Picks batch_reads offsets picked
      → Sends
          (write_batch_reads send_set_name batch_reads prev offsets)
          tt
          (batch_rows send_set_name prev offsets picked)
  unfolding write_batch_reads batch_rows repeats? Picks
  write_batch_reads-Sends send_set_name batch_reads prev [] [] h = Sends-pure tt
  write_batch_reads-Sends send_set_name batch_reads prev [] (r ∷ picked) h = absurd h
  write_batch_reads-Sends send_set_name batch_reads prev (idx ∷ offsets) [] h = absurd h
  write_batch_reads-Sends send_set_name batch_reads prev (idx ∷ offsets) (r ∷ picked) (e, h) =
      Sends->>= _ (Sends-get batch_reads idx r e) (
        Sends->> (Sends-Writes (Building.Writes-u32 (idx % 2 ^ 32))) (
          Sends->> (Sends-Writes (Building.Writes-bytes r.key.digest)) (
            Sends->>
              (selection-Sends (repeats r prev send_set_name) (repeats-Repeats r prev send_set_name)
                send_set_name r)
              (write_batch_reads-Sends send_set_name batch_reads (some r) offsets picked h))))
