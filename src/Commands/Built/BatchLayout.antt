-- ===== src/Commands/Built/BatchLayout.antt =====
-- commands/buffer.rs: the wire format of the reads of a batch, and their first pass against it.
use aerospike_client_rust.Base.{
  ℕ, suc, ◌+◌, ◌%◌, ◌^◌, ◌≡◌, ◌↔◌, Bool, true, false, Option, none, some, List, [], ◌∷◌, ◌++◌,
  length, length-append, get_elem?, arith, if◌then◌else◌,
}
use aerospike_client_rust.Buffer.Endian.{Endian}
use aerospike_client_rust.Key.{Key}
use aerospike_client_rust.Operations.{OperationType}
use aerospike_client_rust.Policy.{Bins}
use aerospike_client_rust.Commands.FieldType
use aerospike_client_rust.Commands.FieldType.{FieldType}
use aerospike_client_rust.Commands.Sizes.{grow}
use aerospike_client_rust.Commands.Batch.{
  BatchRead, repeats, get, estimate_batch_bins, estimate_batch_set, estimate_batch_header,
  estimate_batch_reads,
}
use aerospike_client_rust.Commands.Built.BatchHeaders.{repeats-Repeats, decided, repeats?}
use aerospike_client_rust.Commands.Built.Passes.{
  Estimates, Estimates-pure, Estimates-grow, Estimates->>=, Estimates->>, Estimates-eq,
}
use aerospike_client_rust.Commands.Built.Layout.{field}
use aerospike_client_rust.Commands.Built.Estimated.{length-field, estimate_bin_names-Estimates}
use aerospike_client_rust.Commands.Built.Scanned.{named_operations, named_count}

-- The offsets pick these reads.
unfoldable pub Picks : List BatchRead → List ℕ → List BatchRead → Type 0
Picks batch_reads [] [] = Unit {0}
Picks batch_reads (idx ∷ offsets) (batch_read ∷ picked) =
    (get_elem? batch_reads idx ≡ some batch_read) × Picks batch_reads offsets picked
Picks _ _ _ = ⊥

unfoldable pub bins_attr : Bins → ℕ
bins_attr Bins.all = 3
bins_attr Bins.none = 33
bins_attr (Bins.names names) = 1

-- The number of the fields of a read, and the field of a batch.
unfoldable pub row_fields : Bool → ℕ
row_fields true = 2
row_fields false = 1

unfoldable pub batch_type : Bool → FieldType
batch_type true = FieldType.batch_index_with_set
batch_type false = FieldType.batch_index

module _ ⦃endian : Endian⦄ where
  open endian use {be16, be32}

  unfoldable pub set_field : Bool → Key → List ℕ
  set_field true key = field FieldType.table key.set_name
  set_field false key = []

  -- What says which bins of which set are read: a byte 1 for those of the read before.
  unfoldable pub batch_header : Bool → BatchRead → List ℕ
  batch_header send_set_name batch_read =
      0
      ∷ bins_attr batch_read.bins
      ∷ (be16 (row_fields send_set_name)
          ++ (be16 (named_count batch_read.bins % 2 ^ 16)
              ++ (field FieldType.namespace batch_read.key.namespace
                  ++ (set_field send_set_name batch_read.key ++ named_operations batch_read.bins))))

  unfoldable pub batch_selection : {P : Type 0} → Dec P → Bool → BatchRead → List ℕ
  batch_selection (yes same) send_set_name batch_read = 1 ∷ []
  batch_selection (no other) send_set_name batch_read = batch_header send_set_name batch_read

  -- Every read: its offset, its digest, and what it reads.
  unfoldable pub batch_rows : Bool → Option BatchRead → List ℕ → List BatchRead → List ℕ
  batch_rows send_set_name prev (idx ∷ offsets) (batch_read ∷ picked) =
      be32 (idx % 2 ^ 32)
      ++ (batch_read.key.digest
          ++ (batch_selection (repeats? batch_read prev send_set_name) send_set_name batch_read
              ++ batch_rows send_set_name (some batch_read) offsets picked))
  batch_rows send_set_name prev _ _ = []

  -- A field whose size word counts `n` bytes more than it has.
  unfoldable pub sized_field : ℕ → FieldType → List ℕ → List ℕ
  sized_field n ftype bytes = be32 (n + suc (length bytes)) ++ (FieldType.code ftype ∷ bytes)

  unfoldable pub batch_bytes : Bool → Bool → List ℕ → List BatchRead → List ℕ
  batch_bytes send_set_name allow_inline offsets picked =
      be32 (length offsets % 2 ^ 32)
      ++ ((if allow_inline then 1 else 0) ∷ batch_rows send_set_name none offsets picked)

  estimate_batch_bins-Estimates :
      (bins : Bins) → Estimates (estimate_batch_bins bins) tt (length (named_operations bins))
  unfolding estimate_batch_bins named_operations
  estimate_batch_bins-Estimates Bins.all = Estimates-pure tt
  estimate_batch_bins-Estimates Bins.none = Estimates-pure tt
  estimate_batch_bins-Estimates (Bins.names names) =
      estimate_bin_names-Estimates OperationType.read names

  estimate_batch_set-Estimates :
      (send_set_name : Bool) (key : Key)
      → Estimates (estimate_batch_set send_set_name key) tt (length (set_field send_set_name key))
  unfolding estimate_batch_set set_field
  estimate_batch_set-Estimates true key =
      Estimates-eq (Estimates-grow _) (omega (arith, length-field FieldType.table key.set_name))
  estimate_batch_set-Estimates false key = Estimates-pure tt

  estimate_batch_header-Estimates :
      (send_set_name : Bool) (batch_read : BatchRead)
      → Estimates
          (estimate_batch_header send_set_name batch_read)
          tt
          (length (batch_header send_set_name batch_read))
  unfolding estimate_batch_header batch_header
  estimate_batch_header-Estimates send_set_name batch_read =
      let rows : List ℕ = be16 (row_fields send_set_name) in
      let count : List ℕ = be16 (named_count batch_read.bins % 2 ^ 16) in
      let name : List ℕ = field FieldType.namespace batch_read.key.namespace in
      let table : List ℕ = set_field send_set_name batch_read.key in
      let own : List ℕ = named_operations batch_read.bins in
      Estimates-eq
        (Estimates->> (Estimates-grow _) (
          Estimates->> (estimate_batch_set-Estimates send_set_name batch_read.key)
            (estimate_batch_bins-Estimates batch_read.bins)))
        (omega (
          arith,
          length-append rows (count ++ (name ++ (table ++ own))),
          length-append count (name ++ (table ++ own)),
          length-append name (table ++ own),
          length-append table own,
          length-field FieldType.namespace batch_read.key.namespace,
          endian.length-be16 (row_fields send_set_name),
          endian.length-be16 (named_count batch_read.bins % 2 ^ 16),
        ))

  estimate_selection-Estimates :
      {P : Type 0} (same : Bool) (same-P : (same ≡ true) ↔ P) (send_set_name : Bool)
      (batch_read : BatchRead)
      → Estimates
          (if same then grow 1 else estimate_batch_header send_set_name batch_read)
          tt
          (length (batch_selection (decided same same-P) send_set_name batch_read))
  unfolding batch_selection decided
  estimate_selection-Estimates true h send_set_name batch_read = Estimates-grow 1
  estimate_selection-Estimates false h send_set_name batch_read =
      estimate_batch_header-Estimates send_set_name batch_read

  Estimates-get :
      (batch_reads : List BatchRead) (idx : ℕ) (batch_read : BatchRead)
      → get_elem? batch_reads idx ≡ some batch_read
      → Estimates (get batch_reads idx) batch_read 0
  unfolding get
  Estimates-get batch_reads idx batch_read e = record {
    moves = λ b. rw (e, get) ((Estimates-pure batch_read).moves b);
  }

  pub estimate_batch_reads-Estimates :
      (send_set_name : Bool) (batch_reads : List BatchRead) (prev : Option BatchRead)
      (offsets : List ℕ) (picked : List BatchRead)
      → Picks batch_reads offsets picked
      → Estimates
          (estimate_batch_reads send_set_name batch_reads prev offsets)
          tt
          (length (batch_rows send_set_name prev offsets picked))
  unfolding estimate_batch_reads batch_rows repeats? Picks
  estimate_batch_reads-Estimates send_set_name batch_reads prev [] [] h = Estimates-pure tt
  estimate_batch_reads-Estimates send_set_name batch_reads prev [] (r ∷ picked) h = absurd h
  estimate_batch_reads-Estimates send_set_name batch_reads prev (idx ∷ offsets) [] h = absurd h
  estimate_batch_reads-Estimates send_set_name batch_reads prev (idx ∷ offsets) (r ∷ picked)
        (e, h) =
      let own : List ℕ = batch_selection (repeats? r prev send_set_name) send_set_name r in
      let more : List ℕ = batch_rows send_set_name (some r) offsets picked in
      Estimates-eq
        (Estimates->>= _ (Estimates-get batch_reads idx r e) (
          Estimates->> (Estimates-grow _) (
            Estimates->>
              (estimate_selection-Estimates (repeats r prev send_set_name)
                (repeats-Repeats r prev send_set_name) send_set_name r)
              (estimate_batch_reads-Estimates send_set_name batch_reads (some r) offsets picked
                h))))
        (omega (
          arith,
          length-append (be32 (idx % 2 ^ 32)) (r.key.digest ++ (own ++ more)),
          length-append r.key.digest (own ++ more),
          length-append own more,
          endian.length-be32 (idx % 2 ^ 32),
        ))
