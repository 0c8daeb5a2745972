-- ===== src/Commands/Built/Estimated.antt =====
-- commands/buffer.rs: `estimate_*`, the first pass, against the wire format.
use aerospike_client_rust.Base.{
  ℕ, suc, ◌+◌, ◌%◌, ◌^◌, ◌≡◌, refl, Bool, true, false, List, [], ◌∷◌, ◌++◌, Option, none, some,
  length, length-append, arith, lt→ltb,
}
use aerospike_client_rust.Buffer.Endian.{Endian}
use aerospike_client_rust.Value.{Value, Values}
use aerospike_client_rust.Value.Wire.{payload, type_of, estimate_size-payload}
use aerospike_client_rust.Msgpack.Pack.{dry_run-Packs}
use aerospike_client_rust.Msgpack.Packed.Values.{pack_array-Packs, pack_empty_args_array-Packs}
use aerospike_client_rust.Key.{Key}
use aerospike_client_rust.Expressions.{Expressions}
use aerospike_client_rust.Operations
use aerospike_client_rust.Operations.{OperationType}
use aerospike_client_rust.Commands.ParticleType
use aerospike_client_rust.Commands.FieldType
use aerospike_client_rust.Commands.FieldType.{FieldType}
use aerospike_client_rust.Commands.Sizes.{
  Bin, estimate_text, estimate_user_key, estimate_key_size, estimate_args_size, estimate_udf_size,
  estimate_operation_size_for_bin, estimate_bins, estimate_operation_size_for_bin_name,
  estimate_bin_names, estimate_operation_size, estimate_filter_size,
}
use aerospike_client_rust.Commands.Requests.{with_filter}
use aerospike_client_rust.Commands.Built.Passes.{
  Estimates, Estimates-pure, Estimates-lift, Estimates-grow, Estimates->>=, Estimates->>,
  Estimates-eq,
}
use aerospike_client_rust.Commands.Built.Layout.{
  IsUserKey, IsKey, AreStorable, AreArguments, text_count, user_key_count, key_count, filter_count,
  field, text_field, user_key_field, key_fields, args_bytes, bin_operation, bin_operations,
  name_operation, name_operations, bare_operation, IsFilter, filter_bytes, filter_field,
}

module _ ⦃endian : Endian⦄ where
  open endian use {be32}

  pub length-field : (ftype : FieldType) (bs : List ℕ) → length (field ftype bs) ≡ length bs + 5
  unfolding field
  length-field ftype bs = omega (
    arith,
    length-append (be32 (suc (length bs))) (FieldType.code ftype ∷ bs),
    endian.length-be32 (suc (length bs)),
  )

  pub estimate_text-Estimates :
      (ftype : FieldType) (text : List ℕ)
      → Estimates (estimate_text text) (text_count text) (length (text_field ftype text))
  unfolding estimate_text text_count text_field
  estimate_text-Estimates ftype [] = Estimates-pure 0
  estimate_text-Estimates ftype (x ∷ xs) =
      Estimates-eq (Estimates->> (Estimates-grow _) (Estimates-pure 1))
        (omega (arith, length-field ftype (x ∷ xs)))

  estimate_user_key-Estimates :
      (send_key : Bool) (user_key : Option Value)
      → IsUserKey send_key user_key
      → Estimates
          (estimate_user_key send_key user_key)
          (user_key_count send_key user_key)
          (length (user_key_field send_key user_key))
  unfolding estimate_user_key user_key_count user_key_field IsUserKey
  estimate_user_key-Estimates false user_key h = Estimates-pure 0
  estimate_user_key-Estimates true none h = Estimates-pure 0
  estimate_user_key-Estimates true (some v) h =
      Estimates-eq
        (Estimates->>= _ (Estimates-lift _ (estimate_size-payload v h))
          (Estimates->> (Estimates-grow _) (Estimates-pure 1)))
        (omega (arith, length-field FieldType.key (ParticleType.code (type_of v) ∷ payload v)))

  pub estimate_key_size-Estimates :
      (key : Key) (send_key : Bool)
      → IsKey key send_key
      → Estimates
          (estimate_key_size key send_key)
          (key_count key send_key)
          (length (key_fields key send_key))
  unfolding estimate_key_size key_count key_fields IsKey
  estimate_key_size-Estimates key send_key (digest, user) =
      let name : List ℕ = text_field FieldType.namespace key.namespace in
      let table : List ℕ = text_field FieldType.table key.set_name in
      let hash : List ℕ = field FieldType.digest_ripe key.digest in
      let own : List ℕ = user_key_field send_key key.user_key in
      Estimates-eq
        (Estimates->>= _ (estimate_text-Estimates FieldType.namespace key.namespace) (
          Estimates->>= _ (estimate_text-Estimates FieldType.table key.set_name) (
            Estimates->> (Estimates-grow _) (
              Estimates->>= _ (estimate_user_key-Estimates send_key key.user_key user)
                (Estimates-pure _)))))
        (omega (
          arith,
          length-append name (table ++ (hash ++ own)),
          length-append table (hash ++ own),
          length-append hash own,
          length-field FieldType.digest_ripe key.digest,
        ))

  pub estimate_args_size-Estimates :
      (args : Option Values)
      → AreArguments args
      → Estimates
          (estimate_args_size args)
          tt
          (length (field FieldType.udf_arg_list (args_bytes args)))
  unfolding estimate_args_size AreArguments args_bytes
  estimate_args_size-Estimates none h =
      Estimates-eq
        (Estimates->>= _ (Estimates-lift _ (dry_run-Packs pack_empty_args_array-Packs))
          (Estimates-grow _))
        (omega (arith, length-field FieldType.udf_arg_list (args_bytes none)))
  estimate_args_size-Estimates (some args) h =
      Estimates-eq
        (Estimates->>= _ (Estimates-lift _ (dry_run-Packs (pack_array-Packs args h)))
          (Estimates-grow _))
        (omega (arith, length-field FieldType.udf_arg_list (args_bytes (some args))))

  pub estimate_udf_size-Estimates :
      (package_name function_name : List ℕ) (args : Option Values)
      → AreArguments args
      → Estimates (estimate_udf_size package_name function_name args) 3 (
          length (
            field FieldType.udf_package_name package_name
            ++ (field FieldType.udf_function function_name
                ++ field FieldType.udf_arg_list (args_bytes args))))
  unfolding estimate_udf_size
  estimate_udf_size-Estimates package_name function_name args h =
      let unit : List ℕ = field FieldType.udf_package_name package_name in
      let function : List ℕ = field FieldType.udf_function function_name in
      let list : List ℕ = field FieldType.udf_arg_list (args_bytes args) in
      Estimates-eq
        (Estimates->> (Estimates-grow _) (
          Estimates->> (Estimates-grow _)
            (Estimates->> (estimate_args_size-Estimates args h) (Estimates-pure 3))))
        (omega (
          arith,
          length-append unit (function ++ list),
          length-append function list,
          length-field FieldType.udf_package_name package_name,
          length-field FieldType.udf_function function_name,
        ))

  pub length-bin_operation :
      (op : OperationType) (bin : Bin)
      → length (bin_operation op bin) ≡ length bin.name + 8 + length (payload bin.value)
  unfolding bin_operation
  length-bin_operation op bin = omega (
    arith,
    length-append (be32 (length bin.name + length (payload bin.value) + 4)) (
        Operations.code op
        ∷ ParticleType.code (type_of bin.value)
        ∷ 0
        ∷ length bin.name % 2 ^ 8
        ∷ (bin.name ++ payload bin.value)),
    length-append bin.name (payload bin.value),
    endian.length-be32 (length bin.name + length (payload bin.value) + 4),
  )

  pub estimate_bins-Estimates :
      (op : OperationType) (bins : List Bin)
      → AreStorable bins
      → Estimates (estimate_bins bins) tt (length (bin_operations op bins))
  unfolding estimate_bins estimate_operation_size_for_bin AreStorable bin_operations
  estimate_bins-Estimates op [] h = Estimates-pure tt
  estimate_bins-Estimates op (bin ∷ bins) (h, hs) =
      Estimates-eq
        (Estimates->>
          (Estimates->> (Estimates-grow _) (
            Estimates->>= _ (Estimates-lift _ (estimate_size-payload bin.value h))
              (Estimates-grow _)))
          (estimate_bins-Estimates op bins hs))
        (omega (
          arith,
          length-append (bin_operation op bin) (bin_operations op bins),
          length-bin_operation op bin,
        ))

  pub length-name_operation :
      (op : OperationType) (name : List ℕ) → length (name_operation op name) ≡ length name + 8
  unfolding name_operation
  length-name_operation op name = omega (
    arith,
    length-append (be32 (length name + 4))
        (Operations.code op ∷ 0 ∷ 0 ∷ length name % 2 ^ 8 ∷ name),
    endian.length-be32 (length name + 4),
  )

  pub estimate_bin_name-Estimates :
      (op : OperationType) (name : List ℕ)
      → Estimates (estimate_operation_size_for_bin_name name) tt (length (name_operation op name))
  unfolding estimate_operation_size_for_bin_name
  estimate_bin_name-Estimates op name =
      Estimates-eq (Estimates-grow _) (omega (arith, length-name_operation op name))

  pub estimate_bin_names-Estimates :
      (op : OperationType) (names : List (List ℕ))
      → Estimates (estimate_bin_names names) tt (length (name_operations op names))
  unfolding estimate_bin_names name_operations
  estimate_bin_names-Estimates op [] = Estimates-pure tt
  estimate_bin_names-Estimates op (name ∷ names) =
      Estimates-eq
        (Estimates->> (estimate_bin_name-Estimates op name) (estimate_bin_names-Estimates op names))
        (omega (arith, length-append (name_operation op name) (name_operations op names)))

  pub estimate_operation_size-Estimates :
      (op : OperationType) → Estimates estimate_operation_size tt (length (bare_operation op))
  unfolding estimate_operation_size bare_operation
  estimate_operation_size-Estimates op = Estimates-eq (Estimates-grow _) (
      omega
        (arith, length-append (be32 4) (Operations.code op ∷ 0 ∷ 0 ∷ 0 ∷ []), endian.length-be32 4))

module _ ⦃endian : Endian⦄ ⦃exprs : Expressions⦄ where
  pub estimate_filter_size-Estimates :
      (filter : Option exprs.FilterExpression)
      → IsFilter filter
      → Estimates
          (estimate_filter_size filter)
          (length (filter_bytes filter))
          (length (filter_field filter))
  unfolding estimate_filter_size IsFilter filter_bytes filter_field
  estimate_filter_size-Estimates none h = Estimates-pure 0
  estimate_filter_size-Estimates (some filter) h =
      Estimates-eq
        (Estimates->>= _ (Estimates-lift _ (dry_run-Packs (exprs.pack-Packs filter h)))
          (Estimates->> (Estimates-grow _) (Estimates-pure _)))
        (omega (arith, length-field FieldType.filter_exp (exprs.encoding filter)))

  pub with_filter-count :
      (filter : Option exprs.FilterExpression) (n : ℕ)
      → IsFilter filter
      → with_filter (length (filter_bytes filter)) n ≡ n + filter_count filter
  unfolding IsFilter filter_bytes filter_count
  with_filter-count none n h = omega arith
  with_filter-count (some filter) n h =
      rw (lt→ltb 0 (length (exprs.encoding filter)) (exprs.encoding-nonempty filter h)) refl
