-- ===== src/Commands/Fields.antt =====
-- commands/buffer.rs: the second pass of a command, its fields and operations, `write_*`.
-- A sum of `i32` that overflows panics.
use aerospike_client_rust.Base.{
  ℕ, ◌+◌, ◌-◌, ◌%◌, ◌^◌, Bool, true, false, List, [], ◌∷◌, Option, none, some, length,
  if◌then◌else◌, ltb, leb, ℤ, pos, negsuc, as_i32,
}
use aerospike_client_rust.Outcome.{Outcome, ok, panic, pure, ◌>>=◌, ◌>>◌, lift}
use aerospike_client_rust.Buffer.{M}
use aerospike_client_rust.Buffer.Endian.{Endian}
use aerospike_client_rust.Buffer.Writes.{write_u8, write_i32, write_str, write_bytes}
use aerospike_client_rust.Value.{Value, Values}
use aerospike_client_rust.Value.Wire
use aerospike_client_rust.Msgpack.Pack.{dry_run, wet_run}
use aerospike_client_rust.Msgpack.Encoder.{pack_array, pack_empty_args_array}
use aerospike_client_rust.Key.{Key}
use aerospike_client_rust.Expressions.{Expressions}
use aerospike_client_rust.Operations
use aerospike_client_rust.Operations.{OperationType}
use aerospike_client_rust.Commands.ParticleType
use aerospike_client_rust.Commands.FieldType
use aerospike_client_rust.Commands.FieldType.{FieldType}
use aerospike_client_rust.Commands.Sizes.{Bin, is_empty}

-- `z + k` on `i32`
unfoldable pub add_i32 : ℤ → ℕ → Outcome ℤ
add_i32 (pos n) k = if ltb (n + k) (2 ^ 31) then ok (pos (n + k)) else panic
add_i32 (negsuc n) k = ok (if leb k n then negsuc (n - k) else pos (k - n - 1))

module _ ⦃endian : Endian⦄ where
  unfoldable pub write_field_header : ℕ → FieldType → M (Unit {0})
  write_field_header size ftype = do
    len ← lift (add_i32 (as_i32 size) 1)
    write_i32 len
    write_u8 (FieldType.code ftype)
    pure tt

  unfoldable pub write_field_string : List ℕ → FieldType → M (Unit {0})
  write_field_string field ftype = do
    write_field_header (length field) ftype
    write_str field
    pure tt

  unfoldable pub write_field_bytes : List ℕ → FieldType → M (Unit {0})
  write_field_bytes bytes ftype = do
    write_field_header (length bytes) ftype
    write_bytes bytes
    pure tt

  unfoldable pub write_field_value : Value → FieldType → M (Unit {0})
  write_field_value value ftype = do
    size ← lift (Wire.estimate_size value)
    write_field_header (size + 1) ftype
    type ← lift (Wire.particle_type value)
    write_u8 (ParticleType.code type)
    Wire.write_to value
    pure tt

  unfoldable pub write_text : List ℕ → FieldType → M (Unit {0})
  write_text text ftype = if is_empty text then pure tt else write_field_string text ftype

  unfoldable pub write_user_key : Bool → Option Value → M (Unit {0})
  write_user_key false user_key = pure tt
  write_user_key true none = pure tt
  write_user_key true (some user_key) = write_field_value user_key FieldType.key

  unfoldable pub write_key : Key → Bool → M (Unit {0})
  write_key key send_key = do
    write_text key.namespace FieldType.namespace
    write_text key.set_name FieldType.table
    write_field_bytes key.digest FieldType.digest_ripe
    write_user_key send_key key.user_key

  unfoldable pub write_args : Option Values → FieldType → M (Unit {0})
  write_args (some args) ftype = do
    size ← lift (dry_run (pack_array args))
    write_field_header size ftype
    wet_run (pack_array args)
    pure tt
  write_args none ftype = do
    size ← lift (dry_run pack_empty_args_array)
    write_field_header size ftype
    wet_run pack_empty_args_array
    pure tt

  unfoldable pub write_operation_for_bin : Bin → OperationType → M (Unit {0})
  write_operation_for_bin bin op_type = do
    value_length ← lift (Wire.estimate_size bin.value)
    write_i32 (as_i32 (length bin.name + value_length + 4))
    write_u8 (Operations.code op_type)
    type ← lift (Wire.particle_type bin.value)
    write_u8 (ParticleType.code type)
    write_u8 0
    write_u8 (length bin.name % 2 ^ 8)
    write_str bin.name
    Wire.write_to bin.value
    pure tt

  unfoldable pub write_bins : List Bin → OperationType → M (Unit {0})
  write_bins [] op_type = pure tt
  write_bins (bin ∷ bins) op_type = do write_operation_for_bin bin op_type; write_bins bins op_type

  unfoldable pub write_operation_for_bin_name : List ℕ → OperationType → M (Unit {0})
  write_operation_for_bin_name name op_type = do
    len ← lift (add_i32 (as_i32 (length name)) 4)
    write_i32 len
    write_u8 (Operations.code op_type)
    write_u8 0
    write_u8 0
    write_u8 (length name % 2 ^ 8)
    write_str name
    pure tt

  unfoldable pub write_bin_names : List (List ℕ) → OperationType → M (Unit {0})
  write_bin_names [] op_type = pure tt
  write_bin_names (name ∷ names) op_type = do
    write_operation_for_bin_name name op_type
    write_bin_names names op_type

  unfoldable pub write_operation_for_operation_type : OperationType → M (Unit {0})
  write_operation_for_operation_type op_type = do
    write_i32 (pos 4)
    write_u8 (Operations.code op_type)
    write_u8 0
    write_u8 0
    write_u8 0
    pure tt

module _ ⦃endian : Endian⦄ ⦃exprs : Expressions⦄ where
  unfoldable pub write_filter_expression : exprs.FilterExpression → ℕ → M (Unit {0})
  write_filter_expression filter size = do
    write_field_header size FieldType.filter_exp
    wet_run (exprs.pack filter)
    pure tt

  -- `if let Some(filter) = policy.filter_expression() { … }`
  unfoldable pub write_filter : Option exprs.FilterExpression → ℕ → M (Unit {0})
  write_filter none size = pure tt
  write_filter (some filter) size = write_filter_expression filter size
