-- ===== src/Commands/Built/Written.antt =====
-- commands/buffer.rs: `write_*`, the second pass, against the wire format.
use aerospike_client_rust.Base.{
  ℕ, suc, ◌+◌, ◌%◌, ◌^◌, ◌<◌, ◌≡◌, refl, sym, ap, ◌∙◌, Bool, true, false, List, [], ◌∷◌, ◌++◌,
  Option, none, some, length, length-append, append_assoc, arith, lt→ltb, pos, as_i32,
}
use mathlib.Core.Path.{subst}
use native.Mathlib.Nat.{mod-eq_of_lt}
use aerospike_client_rust.Outcome.{ok, ◌>>◌}
use aerospike_client_rust.Buffer.{M}
use aerospike_client_rust.Buffer.Endian.{Endian}
use aerospike_client_rust.Buffer.Writes.{write_i32}
use aerospike_client_rust.Buffer.Building
use aerospike_client_rust.Buffer.Building.{Writes}
use aerospike_client_rust.Value.{Value, Values}
use aerospike_client_rust.Value.Wire.{
  payload, type_of, IsStorable, estimate_size-payload, particle_type-storable, write_to-Writes,
}
use aerospike_client_rust.Msgpack.Pack.{dry_run-Packs, Writes-wet_run}
use aerospike_client_rust.Msgpack.Packed.Values.{pack_array-Packs, pack_empty_args_array-Packs}
use aerospike_client_rust.Key.{Key}
use aerospike_client_rust.Expressions.{Expressions}
use aerospike_client_rust.Operations
use aerospike_client_rust.Operations.{OperationType}
use aerospike_client_rust.Commands.ParticleType
use aerospike_client_rust.Commands.FieldType
use aerospike_client_rust.Commands.FieldType.{FieldType}
use aerospike_client_rust.Commands.Sizes.{Bin}
use aerospike_client_rust.Commands.Fields.{
  add_i32, write_field_header, write_field_string, write_field_bytes, write_field_value, write_text,
  write_user_key, write_key, write_args, write_operation_for_bin, write_bins,
  write_operation_for_bin_name, write_bin_names, write_operation_for_operation_type,
  write_filter_expression, write_filter,
}
use aerospike_client_rust.Commands.Built.Passes.{
  Sends, Sends-pure, Sends-Writes, Sends->>=, Sends->>,
}
use aerospike_client_rust.Commands.Built.Layout.{
  IsUserKey, IsKey, AreStorable, AreArguments, field, text_field, user_key_field, key_fields,
  args_bytes, bin_operation, bin_operations, name_operation, name_operations, bare_operation,
  IsFilter, filter_bytes, filter_field,
}
use aerospike_client_rust.Commands.Built.Estimated.{length-bin_operation, length-name_operation}

as_i32_small : (n : ℕ) → n < 2 ^ 31 → as_i32 n ≡ pos n
as_i32_small n h =
    let e : n % 2 ^ 32 ≡ n = mod-eq_of_lt (omega arith) in rw (e, lt→ltb n (2 ^ 31) h) refl

pub add_i32_small : (n k : ℕ) → n + k < 2 ^ 31 → add_i32 (as_i32 n) k ≡ ok (pos (n + k))
unfolding add_i32
add_i32_small n k h = rw (as_i32_small n (omega arith), lt→ltb (n + k) (2 ^ 31) h) refl

module _ ⦃endian : Endian⦄ where
  open endian use {be32}

  -- A length below 2 ^ 31 is written as it is.
  Writes-length : (n : ℕ) → n < 2 ^ 31 → Writes (write_i32 (pos n)) 4 (be32 n)
  Writes-length n h =
      let e : n % 2 ^ 32 ≡ n = mod-eq_of_lt (omega arith) in
      Building.Writes-eq (Building.Writes-i32 (pos n)) (ap be32 e)

  pub write_field_header-Writes :
      (n k : ℕ) (ftype : FieldType)
      → suc n ≡ k
      → k < 2 ^ 31
      → Writes (write_field_header n ftype) tt (be32 k ++ (FieldType.code ftype ∷ []))
  unfolding write_field_header
  write_field_header-Writes n k ftype e h =
      let same : n + 1 ≡ k = omega arith in
      Building.Writes->>= _
        (Building.Writes-lift _ (add_i32_small n 1 (omega arith) ∙ ap (λ x. ok (pos x)) same))
        (Building.Writes->> (Writes-length k h)
          (Building.Writes-last tt (Building.Writes-u8 (FieldType.code ftype))))

  -- A header and then the bytes of the field are the field.
  pub Sends-field :
      {k : M (Unit {0})} (n : ℕ) (ftype : FieldType) (bs : List ℕ)
      → n ≡ length bs
      → Writes k tt bs
      → Sends (write_field_header n ftype >> k) tt (field ftype bs)
  unfolding field
  Sends-field n ftype bs e w = record {
    writes = λ h.
        let all : List ℕ = FieldType.code ftype ∷ bs in
        let size : ℕ = suc (length bs) in
        Building.Writes-eq
          (Building.Writes->>
            (write_field_header-Writes n size ftype (omega arith)
              (omega (arith, length-append (be32 size) all)))
            w)
          (append_assoc (be32 size) (FieldType.code ftype ∷ []) bs);
  }

  pub write_field_string-Sends :
      (ftype : FieldType) (s : List ℕ) → Sends (write_field_string s ftype) tt (field ftype s)
  unfolding write_field_string
  write_field_string-Sends ftype s =
      Sends-field _ ftype s refl (Building.Writes-last tt (Building.Writes-str s))

  write_field_bytes-Sends :
      (ftype : FieldType) (bs : List ℕ) → Sends (write_field_bytes bs ftype) tt (field ftype bs)
  unfolding write_field_bytes
  write_field_bytes-Sends ftype bs =
      Sends-field _ ftype bs refl (Building.Writes-last tt (Building.Writes-bytes bs))

  write_field_value-Sends :
      (ftype : FieldType) (v : Value)
      → IsStorable v
      → Sends
          (write_field_value v ftype)
          tt
          (field ftype (ParticleType.code (type_of v) ∷ payload v))
  unfolding write_field_value
  write_field_value-Sends ftype v h =
      let code : ℕ = ParticleType.code (type_of v) in
      let tail : Writes _ tt (code ∷ payload v) =
        Building.Writes->>= _ (Building.Writes-lift _ (particle_type-storable v h)) (
          Building.Writes->> (Building.Writes-u8 code)
            (Building.Writes-last tt (write_to-Writes v h))) in
      Sends->>= _ (Sends-Writes (Building.Writes-lift _ (estimate_size-payload v h)))
        (Sends-field _ ftype (code ∷ payload v) (omega arith) tail)

  pub write_text-Sends :
      (ftype : FieldType) (text : List ℕ) → Sends (write_text text ftype) tt (text_field ftype text)
  unfolding write_text text_field
  write_text-Sends ftype [] = Sends-pure tt
  write_text-Sends ftype (x ∷ xs) = write_field_string-Sends ftype (x ∷ xs)

  write_user_key-Sends :
      (send_key : Bool) (user_key : Option Value)
      → IsUserKey send_key user_key
      → Sends (write_user_key send_key user_key) tt (user_key_field send_key user_key)
  unfolding write_user_key user_key_field IsUserKey
  write_user_key-Sends false user_key h = Sends-pure tt
  write_user_key-Sends true none h = Sends-pure tt
  write_user_key-Sends true (some v) h = write_field_value-Sends FieldType.key v h

  pub write_key-Sends :
      (key : Key) (send_key : Bool)
      → IsKey key send_key
      → Sends (write_key key send_key) tt (key_fields key send_key)
  unfolding write_key key_fields IsKey
  write_key-Sends key send_key (digest, user) =
      Sends->> (write_text-Sends FieldType.namespace key.namespace) (
        Sends->> (write_text-Sends FieldType.table key.set_name) (
          Sends->> (write_field_bytes-Sends FieldType.digest_ripe key.digest)
            (write_user_key-Sends send_key key.user_key user)))

  pub write_args-Sends :
      (ftype : FieldType) (args : Option Values)
      → AreArguments args
      → Sends (write_args args ftype) tt (field ftype (args_bytes args))
  unfolding write_args AreArguments args_bytes
  write_args-Sends ftype none h =
      Sends->>= _
        (Sends-Writes (Building.Writes-lift _ (dry_run-Packs pack_empty_args_array-Packs)))
        (Sends-field _ ftype (args_bytes none) refl
          (Building.Writes-last tt (Writes-wet_run pack_empty_args_array-Packs)))
  write_args-Sends ftype (some args) h =
      Sends->>= _ (Sends-Writes (Building.Writes-lift _ (dry_run-Packs (pack_array-Packs args h))))
        (Sends-field _ ftype (args_bytes (some args)) refl
          (Building.Writes-last tt (Writes-wet_run (pack_array-Packs args h))))

  write_operation_for_bin-Sends :
      (op : OperationType) (bin : Bin)
      → IsStorable bin.value
      → Sends (write_operation_for_bin bin op) tt (bin_operation op bin)
  unfolding write_operation_for_bin bin_operation
  write_operation_for_bin-Sends op bin h = record {
    writes = λ short.
        let n : ℕ = length bin.name + length (payload bin.value) + 4 in
        let small : n < 2 ^ 31 = omega (arith, length-bin_operation op bin) in
        Building.Writes->>= _ (Building.Writes-lift _ (estimate_size-payload bin.value h)) (
          Building.Writes->>
            (subst (λ z. Writes (write_i32 z) 4 (be32 n)) (sym (as_i32_small n small))
              (Writes-length n small))
            (Building.Writes->> (Building.Writes-u8 (Operations.code op)) (
              Building.Writes->>= _ (Building.Writes-lift _ (particle_type-storable bin.value h)) (
                Building.Writes->> (Building.Writes-u8 (ParticleType.code (type_of bin.value))) (
                  Building.Writes->> (Building.Writes-u8 0) (
                    Building.Writes->> (Building.Writes-u8 (length bin.name % 2 ^ 8)) (
                      Building.Writes->> (Building.Writes-str bin.name)
                        (Building.Writes-last tt (write_to-Writes bin.value h)))))))));
  }

  pub write_bins-Sends :
      (op : OperationType) (bins : List Bin)
      → AreStorable bins
      → Sends (write_bins bins op) tt (bin_operations op bins)
  unfolding write_bins AreStorable bin_operations
  write_bins-Sends op [] h = Sends-pure tt
  write_bins-Sends op (bin ∷ bins) (h, hs) =
      Sends->> (write_operation_for_bin-Sends op bin h) (write_bins-Sends op bins hs)

  pub write_bin_name-Sends :
      (op : OperationType) (name : List ℕ)
      → Sends (write_operation_for_bin_name name op) tt (name_operation op name)
  unfolding write_operation_for_bin_name name_operation
  write_bin_name-Sends op name = record {
    writes = λ short.
        let n : ℕ = length name + 4 in
        let small : n < 2 ^ 31 = omega (arith, length-name_operation op name) in
        Building.Writes->>= _ (Building.Writes-lift _ (add_i32_small (length name) 4 small)) (
          Building.Writes->> (Writes-length n small) (
            Building.Writes->> (Building.Writes-u8 (Operations.code op)) (
              Building.Writes->> (Building.Writes-u8 0) (
                Building.Writes->> (Building.Writes-u8 0) (
                  Building.Writes->> (Building.Writes-u8 (length name % 2 ^ 8))
                    (Building.Writes-last tt (Building.Writes-str name)))))));
  }

  pub write_bin_names-Sends :
      (op : OperationType) (names : List (List ℕ))
      → Sends (write_bin_names names op) tt (name_operations op names)
  unfolding write_bin_names name_operations
  write_bin_names-Sends op [] = Sends-pure tt
  write_bin_names-Sends op (name ∷ names) =
      Sends->> (write_bin_name-Sends op name) (write_bin_names-Sends op names)

  pub write_operation-Sends :
      (op : OperationType) → Sends (write_operation_for_operation_type op) tt (bare_operation op)
  unfolding write_operation_for_operation_type bare_operation
  write_operation-Sends op = Sends-Writes (
      Building.Writes->> (Writes-length 4 (omega arith)) (
        Building.Writes->> (Building.Writes-u8 (Operations.code op)) (
          Building.Writes->> (Building.Writes-u8 0) (
            Building.Writes->> (Building.Writes-u8 0)
              (Building.Writes-last tt (Building.Writes-u8 0))))))

module _ ⦃endian : Endian⦄ ⦃exprs : Expressions⦄ where
  pub write_filter-Sends :
      (filter : Option exprs.FilterExpression)
      → IsFilter filter
      → Sends (write_filter filter (length (filter_bytes filter))) tt (filter_field filter)
  unfolding write_filter write_filter_expression IsFilter filter_bytes filter_field
  write_filter-Sends none h = Sends-pure tt
  write_filter-Sends (some filter) h =
      Sends-field _ FieldType.filter_exp (exprs.encoding filter) refl
        (Building.Writes-last tt (Writes-wet_run (exprs.pack-Packs filter h)))
