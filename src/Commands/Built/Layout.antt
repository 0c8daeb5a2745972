-- ===== src/Commands/Built/Layout.antt =====
-- The wire format of a message: its two kinds of header, its fields and its operations, as bytes.
-- A description that is independent of the two passes of commands/buffer.rs.
use aerospike_client_rust.Base.{
  ℕ, suc, ◌+◌, ◌%◌, ◌^◌, ◌≡◌, Bool, true, false, List, [], ◌∷◌, ◌++◌, Option, none, some, length,
  replicate, if◌then◌else◌,
}
use aerospike_client_rust.Buffer.Endian.{Endian}
use aerospike_client_rust.Value.{Value, Values, length_values}
use aerospike_client_rust.Value.Wire.{payload, type_of, IsStorable}
use aerospike_client_rust.Msgpack.Format.{array_header, encode_values, ArePackable}
use aerospike_client_rust.Key.{Key}
use aerospike_client_rust.Expressions.{Expressions}
use aerospike_client_rust.Operations
use aerospike_client_rust.Operations.{OperationType}
use aerospike_client_rust.Commands.ParticleType
use aerospike_client_rust.Commands.FieldType
use aerospike_client_rust.Commands.FieldType.{FieldType}
use aerospike_client_rust.Commands.Sizes.{Bin, is_empty}

-- What a key, bins and arguments must be for a command to take them.
unfoldable pub IsUserKey : Bool → Option Value → Type 0
IsUserKey false user_key = Unit {0}
IsUserKey true none = Unit {0}
IsUserKey true (some user_key) = IsStorable user_key

unfoldable pub IsKey : Key → Bool → Type 0
IsKey key send_key = (length key.digest ≡ 20) × IsUserKey send_key key.user_key

unfoldable pub AreStorable : List Bin → Type 0
AreStorable [] = Unit {0}
AreStorable (bin ∷ bins) = IsStorable bin.value × AreStorable bins

unfoldable pub AreArguments : Option Values → Type 0
AreArguments none = Unit {0}
AreArguments (some args) = ArePackable args

-- The number of fields that a part of a message has.
unfoldable pub text_count : List ℕ → ℕ
text_count text = if is_empty text then 0 else 1

unfoldable pub user_key_count : Bool → Option Value → ℕ
user_key_count true (some user_key) = 1
user_key_count _ _ = 0

unfoldable pub key_count : Key → Bool → ℕ
key_count key send_key =
    text_count key.namespace + text_count key.set_name + 1 + user_key_count send_key key.user_key

unfoldable pub filter_count {ℓ} : {F : Type ℓ} → Option F → ℕ
filter_count none = 0
filter_count (some filter) = 1

module _ ⦃endian : Endian⦄ where
  open endian use {be16, be32}

  unfoldable pub field : FieldType → List ℕ → List ℕ
  field ftype bytes = be32 (suc (length bytes)) ++ (FieldType.code ftype ∷ bytes)

  unfoldable pub text_field : FieldType → List ℕ → List ℕ
  text_field ftype text = if is_empty text then [] else field ftype text

  unfoldable pub user_key_field : Bool → Option Value → List ℕ
  user_key_field true (some user_key) =
      field FieldType.key (ParticleType.code (type_of user_key) ∷ payload user_key)
  user_key_field _ _ = []

  unfoldable pub key_fields : Key → Bool → List ℕ
  key_fields key send_key =
      text_field FieldType.namespace key.namespace
      ++ (text_field FieldType.table key.set_name
          ++ (field FieldType.digest_ripe key.digest ++ user_key_field send_key key.user_key))

  unfoldable pub args_bytes : Option Values → List ℕ
  args_bytes none = array_header 0
  args_bytes (some args) = array_header (length_values args) ++ encode_values args

  -- A bin that is written: its length, the operation, the type, a version and the name.
  unfoldable pub bin_operation : OperationType → Bin → List ℕ
  bin_operation op bin =
      be32 (length bin.name + length (payload bin.value) + 4)
      ++ (Operations.code op
          ∷ ParticleType.code (type_of bin.value)
          ∷ 0
          ∷ length bin.name % 2 ^ 8
          ∷ (bin.name ++ payload bin.value))

  unfoldable pub bin_operations : OperationType → List Bin → List ℕ
  bin_operations op [] = []
  bin_operations op (bin ∷ bins) = bin_operation op bin ++ bin_operations op bins

  -- A bin that is read, by its name.
  unfoldable pub name_operation : OperationType → List ℕ → List ℕ
  name_operation op name =
      be32 (length name + 4) ++ (Operations.code op ∷ 0 ∷ 0 ∷ length name % 2 ^ 8 ∷ name)

  unfoldable pub name_operations : OperationType → List (List ℕ) → List ℕ
  name_operations op [] = []
  name_operations op (name ∷ names) = name_operation op name ++ name_operations op names

  unfoldable pub bare_operation : OperationType → List ℕ
  bare_operation op = be32 4 ++ (Operations.code op ∷ 0 ∷ 0 ∷ 0 ∷ [])

  -- The 22 bytes behind the size word: with attributes only, and with those of a write policy.
  unfoldable pub bare_head : ℕ → ℕ → ℕ → ℕ → List ℕ
  bare_head read_attr write_attr fields operations =
      22 ∷ read_attr ∷ write_attr ∷ (replicate 15 0 ++ (be16 fields ++ be16 operations))

  unfoldable pub full_head : ℕ → ℕ → ℕ → ℕ → ℕ → ℕ → ℕ → List ℕ
  full_head read_attr write_attr info_attr generation expiration fields operations =
      22
      ∷ read_attr
      ∷ write_attr
      ∷ info_attr
      ∷ 0
      ∷ 0
      ∷ (be32 generation ++ (be32 expiration ++ (0 ∷ 0 ∷ 0 ∷ 0 ∷ (be16 fields ++ be16 operations))))

module _ ⦃endian : Endian⦄ ⦃exprs : Expressions⦄ where
  unfoldable pub IsFilter : Option exprs.FilterExpression → Type 0
  IsFilter none = Unit {0}
  IsFilter (some filter) = exprs.IsPackable filter

  unfoldable pub filter_bytes : Option exprs.FilterExpression → List ℕ
  filter_bytes none = []
  filter_bytes (some filter) = exprs.encoding filter

  unfoldable pub filter_field : Option exprs.FilterExpression → List ℕ
  filter_field none = []
  filter_field (some filter) = field FieldType.filter_exp (exprs.encoding filter)
