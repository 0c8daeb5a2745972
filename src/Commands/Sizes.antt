-- ===== src/Commands/Sizes.antt =====
-- commands/buffer.rs: the first pass of a command, which moves only the offset, `estimate_*`.
use aerospike_client_rust.Base.{
  ℕ, ◌+◌, Bool, true, false, List, [], ◌∷◌, Option, none, some, length, if◌then◌else◌,
}
use aerospike_client_rust.Outcome.{ok, pure, ◌>>=◌, ◌>>◌, lift}
use aerospike_client_rust.Buffer.{M}
use aerospike_client_rust.Buffer.Endian.{Endian}
use aerospike_client_rust.Buffer.Reads.{advance}
use aerospike_client_rust.Value.{Value, Values}
use aerospike_client_rust.Value.Wire
use aerospike_client_rust.Msgpack.Pack.{dry_run}
use aerospike_client_rust.Msgpack.Encoder.{pack_array, pack_empty_args_array}
use aerospike_client_rust.Key.{Key}
use aerospike_client_rust.Expressions.{Expressions}

abbrev pub field_header_size : ℕ
field_header_size = 5

abbrev pub operation_header_size : ℕ
operation_header_size = 8

abbrev pub digest_size : ℕ
digest_size = 20

-- `self.data_offset += n`
unfoldable pub grow : ℕ → M (Unit {0})
grow n b = ok (tt, advance b n)

abbrev pub is_empty {ℓ} : {A : Type ℓ} → List A → Bool
is_empty [] = true
is_empty (x ∷ xs) = false

-- A bin: its name and its value.
pub record Bin : Type 0 where
  pub name : List ℕ
  pub value : Value

-- `if !text.is_empty() { data_offset += text.len() + FIELD_HEADER_SIZE; field_count += 1; }`
unfoldable pub estimate_text : List ℕ → M ℕ
estimate_text text =
    if is_empty text then pure 0 else (do grow (length text + field_header_size); pure 1)

module _ ⦃endian : Endian⦄ where
  unfoldable pub estimate_user_key : Bool → Option Value → M ℕ
  estimate_user_key false user_key = pure 0
  estimate_user_key true none = pure 0
  estimate_user_key true (some user_key) = do
    size ← lift (Wire.estimate_size user_key)
    grow (size + field_header_size + 1)
    pure 1

  unfoldable pub estimate_key_size : Key → Bool → M ℕ
  estimate_key_size key send_key = do
    namespaces ← estimate_text key.namespace
    sets ← estimate_text key.set_name
    grow (digest_size + field_header_size)
    user_keys ← estimate_user_key send_key key.user_key
    pure (namespaces + sets + 1 + user_keys)

  unfoldable pub estimate_args_size : Option Values → M (Unit {0})
  estimate_args_size (some args) = do
    size ← lift (dry_run (pack_array args))
    grow (size + field_header_size)
  estimate_args_size none = do
    size ← lift (dry_run pack_empty_args_array)
    grow (size + field_header_size)

  unfoldable pub estimate_udf_size : List ℕ → List ℕ → Option Values → M ℕ
  estimate_udf_size package_name function_name args = do
    grow (length package_name + field_header_size)
    grow (length function_name + field_header_size)
    estimate_args_size args
    pure 3

  unfoldable pub estimate_operation_size_for_bin : Bin → M (Unit {0})
  estimate_operation_size_for_bin bin = do
    grow (length bin.name + operation_header_size)
    size ← lift (Wire.estimate_size bin.value)
    grow size

  -- `for bin in bins { self.estimate_operation_size_for_bin(bin)?; }`
  unfoldable pub estimate_bins : List Bin → M (Unit {0})
  estimate_bins [] = pure tt
  estimate_bins (bin ∷ bins) = do estimate_operation_size_for_bin bin; estimate_bins bins

unfoldable pub estimate_operation_size_for_bin_name : List ℕ → M (Unit {0})
estimate_operation_size_for_bin_name bin_name = grow (length bin_name + operation_header_size)

unfoldable pub estimate_bin_names : List (List ℕ) → M (Unit {0})
estimate_bin_names [] = pure tt
estimate_bin_names (name ∷ names) = do
  estimate_operation_size_for_bin_name name
  estimate_bin_names names

unfoldable pub estimate_operation_size : M (Unit {0})
estimate_operation_size = grow operation_header_size

module _ ⦃exprs : Expressions⦄ where
  unfoldable pub estimate_filter_size : Option exprs.FilterExpression → M ℕ
  estimate_filter_size none = pure 0
  estimate_filter_size (some filter) = do
    filter_size ← lift (dry_run (exprs.pack filter))
    grow (filter_size + field_header_size)
    pure filter_size
