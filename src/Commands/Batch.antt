-- ===== src/Commands/Batch.antt =====
-- commands/buffer.rs: `set_batch_read`, with the reads of batch/batch_read.rs. The field of the
-- batch is given its size at the end, in the bytes where its header stands.
use aerospike_client_rust.Base.{
  ℕ, ◌+◌, ◌-◌, ◌%◌, ◌^◌, Bool, true, false, ◌&&◌, ◌==◌, Option, none, some, List, [], ◌∷◌, length,
  overwrite, get_elem?, ltb, leb, if◌then◌else◌, bit_or,
}
use aerospike_client_rust.Outcome.{ok, panic, pure, ◌>>=◌, ◌>>◌}
use aerospike_client_rust.Buffer.{M}
use aerospike_client_rust.Buffer.Endian.{Endian}
use aerospike_client_rust.Buffer.Sizing.{msg_total_header_size, begin, size_buffer, end}
use aerospike_client_rust.Buffer.Writes.{write_u8, write_u16, write_u32, write_bytes}
use aerospike_client_rust.Key.{Key}
use aerospike_client_rust.Expressions.{Expressions}
use aerospike_client_rust.Operations.{OperationType}
use aerospike_client_rust.Policy.{BasePolicy, Bins}
use aerospike_client_rust.Commands.FieldType.{FieldType}
use aerospike_client_rust.Commands.Sizes.{
  field_header_size, grow, estimate_filter_size, estimate_bin_names,
}
use aerospike_client_rust.Commands.Fields.{
  write_field_header, write_field_string, write_filter, write_bin_names,
}
use aerospike_client_rust.Commands.Header.{
  write_header, info1_read, info1_get_all, info1_batch, info1_nobindata,
}
use aerospike_client_rust.Commands.Requests.{with_filter}

-- The fields of the policy that the command reads.
pub record BatchPolicy (F : Type 0) : Type 0 where
  pub base_policy : BasePolicy F
  pub allow_inline : Bool
  pub send_set_name : Bool
  pub filter_expression : Option F

-- The record that the answer fills in is no part of the command.
pub record BatchRead : Type 0 where
  pub key : Key
  pub bins : Bins

-- The derived equality of strings, and of the selections of bins.
unfoldable pub same_text : List ℕ → List ℕ → Bool
same_text [] [] = true
same_text (x ∷ xs) (y ∷ ys) = (x == y) && same_text xs ys
same_text _ _ = false

unfoldable pub same_names : List (List ℕ) → List (List ℕ) → Bool
same_names [] [] = true
same_names (x ∷ xs) (y ∷ ys) = same_text x y && same_names xs ys
same_names _ _ = false

unfoldable pub same_bins : Bins → Bins → Bool
same_bins Bins.all Bins.all = true
same_bins Bins.none Bins.none = true
same_bins (Bins.names names) (Bins.names others) = same_names names others
same_bins _ _ = false

unfoldable pub match_header : BatchRead → BatchRead → Bool → Bool
match_header self other match_set =
    same_text self.key.namespace other.key.namespace
    && (match_set && same_text self.key.set_name other.key.set_name)
    && same_bins self.bins other.bins

-- `Some(prev) if batch_read.match_header(prev, send_set_name)`
unfoldable pub repeats : BatchRead → Option BatchRead → Bool → Bool
repeats batch_read none send_set_name = false
repeats batch_read (some prev) send_set_name = match_header batch_read prev send_set_name

-- `batch_reads.get(*idx).unwrap()`
unfoldable pub get : List BatchRead → ℕ → M BatchRead
get batch_reads idx b = elim (get_elem? batch_reads idx) [
  | some batch_read ↦ ok (batch_read, b)
  | none ↦ panic
]

unfoldable pub estimate_batch_bins : Bins → M (Unit {0})
estimate_batch_bins (Bins.names names) = estimate_bin_names names
estimate_batch_bins _ = pure tt

unfoldable pub estimate_batch_set : Bool → Key → M (Unit {0})
estimate_batch_set true key = grow (length key.set_name + field_header_size)
estimate_batch_set false key = pure tt

unfoldable pub estimate_batch_header : Bool → BatchRead → M (Unit {0})
estimate_batch_header send_set_name batch_read = do
  grow (length batch_read.key.namespace + field_header_size + 6)
  estimate_batch_set send_set_name batch_read.key
  estimate_batch_bins batch_read.bins

unfoldable pub estimate_batch_reads :
    Bool → List BatchRead → Option BatchRead → List ℕ → M (Unit {0})
estimate_batch_reads send_set_name batch_reads prev [] = pure tt
estimate_batch_reads send_set_name batch_reads prev (idx ∷ offsets) = do
  batch_read ← get batch_reads idx
  grow (length batch_read.key.digest + 4)
  if repeats batch_read prev send_set_name
      then grow 1
      else estimate_batch_header send_set_name batch_read
  estimate_batch_reads send_set_name batch_reads (some batch_read) offsets

unfoldable pub field_count_row : Bool → ℕ
field_count_row send_set_name = if send_set_name then 2 else 1

unfoldable pub batch_field_type : Bool → FieldType
batch_field_type send_set_name =
    if send_set_name then FieldType.batch_index_with_set else FieldType.batch_index

-- `let field_size_offset = self.data_offset`
unfoldable pub data_offset_of : M ℕ
data_offset_of b = ok (b.data_offset, b)

module _ ⦃endian : Endian⦄ where
  unfoldable pub write_batch_set : Bool → Key → M (Unit {0})
  write_batch_set true key = write_field_string key.set_name FieldType.table
  write_batch_set false key = pure tt

  unfoldable pub write_batch_row : Bool → Key → Bins → M (Unit {0})
  write_batch_row send_set_name key Bins.none = do
    write_u8 (bit_or info1_read info1_nobindata)
    write_u16 (field_count_row send_set_name)
    write_u16 0
    write_field_string key.namespace FieldType.namespace
    write_batch_set send_set_name key
  write_batch_row send_set_name key Bins.all = do
    write_u8 (bit_or info1_read info1_get_all)
    write_u16 (field_count_row send_set_name)
    write_u16 0
    write_field_string key.namespace FieldType.namespace
    write_batch_set send_set_name key
  write_batch_row send_set_name key (Bins.names names) = do
    write_u8 info1_read
    write_u16 (field_count_row send_set_name)
    write_u16 (length names % 2 ^ 16)
    write_field_string key.namespace FieldType.namespace
    write_batch_set send_set_name key
    write_bin_names names OperationType.read

  unfoldable pub write_batch_header : Bool → BatchRead → M (Unit {0})
  write_batch_header send_set_name batch_read = do
    write_u8 0
    write_batch_row send_set_name batch_read.key batch_read.bins

  unfoldable pub write_batch_reads :
      Bool → List BatchRead → Option BatchRead → List ℕ → M (Unit {0})
  write_batch_reads send_set_name batch_reads prev [] = pure tt
  write_batch_reads send_set_name batch_reads prev (idx ∷ offsets) = do
    batch_read ← get batch_reads idx
    write_u32 (idx % 2 ^ 32)
    write_bytes batch_read.key.digest
    if repeats batch_read prev send_set_name
        then (do write_u8 1; pure tt)
        else write_batch_header send_set_name batch_read
    write_batch_reads send_set_name batch_reads (some batch_read) offsets

  -- `NetworkEndian::write_u32(&mut self.data_buffer[offset..offset + 4], size as u32)`, where the
  -- size is `self.data_offset - MSG_TOTAL_HEADER_SIZE - 4`.
  unfoldable pub write_batch_size : ℕ → M (Unit {0})
  write_batch_size field_size_offset b =
      if ltb b.data_offset (msg_total_header_size + 4)
      then panic
      else if leb (field_size_offset + 4) (length b.data_buffer)
      then ok (
        tt,
        record b {
          data_buffer =
              overwrite b.data_buffer field_size_offset
                (endian.be32 ((b.data_offset - msg_total_header_size - 4) % 2 ^ 32));
        },
      )
      else panic

  -- The field of the batch, from its header to the size that is put into it at the end.
  unfoldable pub write_batch_field : Bool → Bool → List BatchRead → List ℕ → M (Unit {0})
  write_batch_field send_set_name allow_inline batch_reads offsets = do
    field_size_offset ← data_offset_of
    write_field_header 0 (batch_field_type send_set_name)
    write_u32 (length offsets % 2 ^ 32)
    write_u8 (if allow_inline then 1 else 0)
    write_batch_reads send_set_name batch_reads none offsets
    write_batch_size field_size_offset

module _ ⦃endian : Endian⦄ ⦃exprs : Expressions⦄ where
  open exprs use {FilterExpression}

  unfoldable pub set_batch_read :
      BatchPolicy FilterExpression → List BatchRead → List ℕ → M (Unit {0})
  set_batch_read policy batch_reads offsets = do
    begin
    grow (field_header_size + 5)
    filter_size ← estimate_filter_size policy.filter_expression
    estimate_batch_reads policy.send_set_name batch_reads none offsets
    size_buffer
    write_header policy.base_policy (bit_or info1_read info1_batch) 0 (with_filter filter_size 1) 0
    write_filter policy.filter_expression filter_size
    write_batch_field policy.send_set_name policy.allow_inline batch_reads offsets
    end
