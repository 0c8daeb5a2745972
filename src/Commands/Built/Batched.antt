-- ===== src/Commands/Built/Batched.antt =====
-- commands/buffer.rs: `set_batch_read` against the wire format.
use aerospike_client_rust.Base.{
  ℕ, suc, ◌+◌, ◌%◌, ◌^◌, ◌≡◌, refl, ap, ◌∙◌, Bool, true, false, Option, none, some, List, [], ◌∷◌,
  ◌++◌, length, length-append, append_assoc, arith, if◌then◌else◌,
}
use aerospike_client_rust.Outcome.{>>=-ok}
use aerospike_client_rust.Buffer.{Buffer, append}
use aerospike_client_rust.Buffer.Endian.{Endian}
use aerospike_client_rust.Buffer.Building
use aerospike_client_rust.Buffer.Building.{Writes}
use aerospike_client_rust.Expressions.{Expressions}
use aerospike_client_rust.Policy.{BasePolicy}
use aerospike_client_rust.Commands.FieldType
use aerospike_client_rust.Commands.FieldType.{FieldType}
use aerospike_client_rust.Commands.Built.Flags.{consistent}
use aerospike_client_rust.Commands.Batch.{
  BatchPolicy, BatchRead, batch_field_type, data_offset_of, write_batch_size, write_batch_field,
  set_batch_read,
}
use aerospike_client_rust.Commands.Built.Passes.{Estimates-grow, Sends-Writes}
use aerospike_client_rust.Commands.Built.Frames.{
  built, FinishesBy, Finishes-last, Finishes->>, SendsAt, FinishesBody-at, Builds-body, Builds->>=,
  Builds->>, Builds-begin,
}
use aerospike_client_rust.Commands.Built.Layout.{
  IsFilter, filter_count, field, filter_field, bare_head,
}
use aerospike_client_rust.Commands.Built.Estimated.{estimate_filter_size-Estimates}
use aerospike_client_rust.Commands.Built.Written.{write_field_header-Writes, write_filter-Sends}
use aerospike_client_rust.Commands.Built.Messages.{counted}
use aerospike_client_rust.Commands.Built.Heads.{write_header-Heads}
use aerospike_client_rust.Commands.Built.BatchHeaders.{Repeats, repeats?}
use mathlib.Core.Path.{subst}
use aerospike_client_rust.Commands.Built.BatchLayout.{
  batch_type, Picks, batch_header, batch_selection, batch_rows, sized_field, batch_bytes,
  estimate_batch_reads-Estimates,
}
use aerospike_client_rust.Commands.Built.BatchRows.{write_batch_reads-Sends}
use aerospike_client_rust.Commands.Built.BatchSize.{length-sized, write_batch_size-sized}

module _ ⦃endian : Endian⦄ where
  open endian use {be32}

  -- The type of the field of a batch is the one of the wire format.
  batch_field_type-batch :
      (send_set_name : Bool) → batch_field_type send_set_name ≡ batch_type send_set_name
  unfolding batch_field_type batch_type
  batch_field_type-batch true = refl
  batch_field_type-batch false = refl

  write_batch_field-coded :
      (send_set_name allow_inline : Bool) (batch_reads : List BatchRead) (offsets : List ℕ)
      (picked : List BatchRead) (n : ℕ)
      → Picks batch_reads offsets picked
      → SendsAt (30 + n) (write_batch_field send_set_name allow_inline batch_reads offsets) (
          sized_field n
            (batch_field_type send_set_name)
            (batch_bytes send_set_name allow_inline offsets picked))
  unfolding write_batch_field data_offset_of batch_bytes sized_field
  write_batch_field-coded send_set_name allow_inline batch_reads offsets picked n h =
      let ftype : FieldType = batch_field_type send_set_name in
      let code : ℕ = FieldType.code ftype in
      let rest : List ℕ = batch_bytes send_set_name allow_inline offsets picked in
      let fields : (o : ℕ) → FinishesBy (write_batch_size o) _ ((be32 1 ++ (code ∷ [])) ++ rest) =
        λ o. Finishes->> (Sends-Writes (write_field_header-Writes 0 1 ftype refl (omega arith))) (
          Finishes->> (Sends-Writes (Building.Writes-u32 (length offsets % 2 ^ 32))) (
            Finishes->> (Sends-Writes (Building.Writes-u8 (if allow_inline then 1 else 0))) (
              Finishes-last
                (write_batch_reads-Sends send_set_name batch_reads none offsets picked h)))) in
      let same : (be32 1 ++ (code ∷ [])) ++ rest ≡ be32 1 ++ (code ∷ rest) =
        append_assoc (be32 1) (code ∷ []) rest in
      let size : length (sized_field n ftype rest) ≡ 5 + length rest =
        length-sized (n + suc (length rest)) code rest in
      let begun : length (be32 1 ++ (code ∷ rest)) ≡ 5 + length rest = length-sized 1 code rest in
      record {
        writes_at = λ short b at room.
            >>=-ok data_offset_of _ refl
            ∙ (fields b.data_offset).finishes b (omega (arith, ap length same))
                (omega (arith, ap length same))
            ∙ ap (λ bs. write_batch_size b.data_offset (append b bs)) same
            ∙ write_batch_size-sized ftype rest n b at (omega arith) (omega arith);
      }

  write_batch_field-SendsAt :
      (send_set_name allow_inline : Bool) (batch_reads : List BatchRead) (offsets : List ℕ)
      (picked : List BatchRead) (n : ℕ)
      → Picks batch_reads offsets picked
      → SendsAt (30 + n) (write_batch_field send_set_name allow_inline batch_reads offsets) (
          sized_field n
            (batch_type send_set_name)
            (batch_bytes send_set_name allow_inline offsets picked))
  write_batch_field-SendsAt send_set_name allow_inline batch_reads offsets picked n h =
      subst
        (λ ftype.
          SendsAt (30 + n) (write_batch_field send_set_name allow_inline batch_reads offsets)
            (sized_field n ftype (batch_bytes send_set_name allow_inline offsets picked)))
        (batch_field_type-batch send_set_name)
        (write_batch_field-coded send_set_name allow_inline batch_reads offsets picked n h)

module _ ⦃endian : Endian⦄ ⦃exprs : Expressions⦄ where
  open exprs use {FilterExpression}

  unfoldable pub batch_body : BatchPolicy FilterExpression → List ℕ → List BatchRead → List ℕ
  batch_body policy offsets picked =
      filter_field policy.filter_expression
      ++ sized_field (length (filter_field policy.filter_expression))
          (batch_type policy.send_set_name)
          (batch_bytes policy.send_set_name policy.allow_inline offsets picked)

  length-batch_body :
      (policy : BatchPolicy FilterExpression) (offsets : List ℕ) (picked : List BatchRead)
      → 30
          + 10
          + length (filter_field policy.filter_expression)
          + length (batch_rows policy.send_set_name none offsets picked)
        ≡ 30 + length (batch_body policy offsets picked)
  unfolding batch_body sized_field batch_bytes
  length-batch_body policy offsets picked =
      let count : ℕ = length offsets % 2 ^ 32 in
      let flag : ℕ = if policy.allow_inline then 1 else 0 in
      let rows : List ℕ = batch_rows policy.send_set_name none offsets picked in
      let rest : List ℕ = batch_bytes policy.send_set_name policy.allow_inline offsets picked in
      let n : ℕ = length (filter_field policy.filter_expression) in
      let code : ℕ = FieldType.code (batch_type policy.send_set_name) in
      omega (
        arith,
        length-append (filter_field policy.filter_expression)
            (endian.be32 (n + suc (length rest)) ++ (code ∷ rest)),
        length-sized (n + suc (length rest)) code rest,
        length-append (endian.be32 count) (flag ∷ rows),
        endian.length-be32 count,
      )

  -- `set_batch_read` with a packable filter, for offsets that stand in the batch: whatever the
  -- buffer held, it then holds the message with the field of the filter and that of the batch, in
  -- which a read is sent without a header of its own if the names of sets are sent and it has the
  -- namespace, the set and the bins of the read before; the size word of the
  -- batch's field counts the field of the filter too, so that it is right without a filter only. If
  -- the message is longer than the largest buffer, the error says its size.
  pub set_batch_read-Builds :
      (policy : BatchPolicy FilterExpression) (batch_reads : List BatchRead) (offsets : List ℕ)
      (picked : List BatchRead)
      → IsFilter policy.filter_expression
      → Picks batch_reads offsets picked
      → (b : Buffer)
      → set_batch_read policy batch_reads offsets b
        ≡ built b
            (bare_head
              (consistent policy.base_policy.consistency_level 9)
              0
              (1 + filter_count policy.filter_expression)
              0)
            (batch_body policy offsets picked)
  unfolding set_batch_read batch_body
  set_batch_read-Builds policy batch_reads offsets picked hf hp b =
      Builds-begin
        (Builds->> (Estimates-grow 10) (
          Builds->>= _ (estimate_filter_size-Estimates policy.filter_expression hf) (
            Builds->>
              (estimate_batch_reads-Estimates policy.send_set_name batch_reads none offsets picked
                hp)
              (Builds-body
                (counted _ policy.filter_expression 1
                  (λ n. write_header-Heads policy.base_policy 9 0 n 0 (omega arith)) hf)
                (FinishesBody-at (write_filter-Sends policy.filter_expression hf) (
                  write_batch_field-SendsAt policy.send_set_name policy.allow_inline batch_reads
                    offsets picked (length (filter_field policy.filter_expression)) hp))
                (length-batch_body policy offsets picked)))))
        b

module _ ⦃endian : Endian⦄ where
  open endian use {be32}

  -- Every read with a header of its own.
  unfoldable pub own_rows : List ℕ → List BatchRead → List ℕ
  own_rows (idx ∷ offsets) (batch_read ∷ picked) =
      be32 (idx % 2 ^ 32)
      ++ (batch_read.key.digest ++ (batch_header false batch_read ++ own_rows offsets picked))
  own_rows _ _ = []

  sized_field-0 :
      (ftype : FieldType) (bytes : List ℕ) → sized_field 0 ftype bytes ≡ field ftype bytes
  unfolding sized_field field
  sized_field-0 ftype bytes =
      let none_more : 0 + suc (length bytes) ≡ suc (length bytes) = omega arith in
      ap (λ n. be32 n ++ (FieldType.code ftype ∷ bytes)) none_more

  -- Without names of sets no read repeats a header.
  unsent : (batch_read : BatchRead) (prev : Option BatchRead) → Repeats batch_read prev false → ⊥
  unfolding Repeats
  unsent batch_read none h = h
  unsent batch_read (some prev) h = subst (λ b. if b then ⊥ else Unit {0}) h.0 tt

  batch_selection-no :
      {P : Type 0} (d : Dec P) (batch_read : BatchRead)
      → (P → ⊥)
      → batch_selection d false batch_read ≡ batch_header false batch_read
  unfolding batch_selection
  batch_selection-no (yes p) batch_read h = absurd (h p)
  batch_selection-no (no q) batch_read h = refl

  batch_rows-unsent :
      (prev : Option BatchRead) (offsets : List ℕ) (picked : List BatchRead)
      → batch_rows false prev offsets picked ≡ own_rows offsets picked
  unfolding batch_rows own_rows
  batch_rows-unsent prev [] picked = refl
  batch_rows-unsent prev (idx ∷ offsets) [] = refl
  batch_rows-unsent prev (idx ∷ offsets) (r ∷ picked) =
      rw (batch_selection-no (repeats? r prev false) r (unsent r prev)) (
        ap (λ bs. be32 (idx % 2 ^ 32) ++ (r.key.digest ++ (batch_header false r ++ bs)))
          (batch_rows-unsent (some r) offsets picked))

module _ ⦃endian : Endian⦄ ⦃exprs : Expressions⦄ where
  open exprs use {FilterExpression}

  -- A policy without names of sets and without a filter, as the defaults have it.
  abbrev pub plain_policy : BasePolicy FilterExpression → Bool → BatchPolicy FilterExpression
  plain_policy base_policy allow_inline = record {
    base_policy = base_policy;
    allow_inline = allow_inline;
    send_set_name = false;
    filter_expression = none;
  }

  -- `set_batch_read` without names of sets and without a filter, for offsets that stand in the
  -- batch: the size word of the batch's field counts that field, and every read is sent with a
  -- header of its own, also where the read before has the same namespace and bins. If the message
  -- is longer than the largest buffer, the error says its size.
  pub set_batch_read-plain :
      (base_policy : BasePolicy FilterExpression) (allow_inline : Bool)
      (batch_reads : List BatchRead) (offsets : List ℕ) (picked : List BatchRead)
      → Picks batch_reads offsets picked
      → (b : Buffer)
      → set_batch_read (plain_policy base_policy allow_inline) batch_reads offsets b
        ≡ built b (bare_head (consistent base_policy.consistency_level 9) 0 1 0) (
            field FieldType.batch_index (
              endian.be32 (length offsets % 2 ^ 32)
              ++ ((if allow_inline then 1 else 0) ∷ own_rows offsets picked)))
  unfolding batch_body batch_bytes batch_type filter_field filter_count IsFilter
  set_batch_read-plain base_policy allow_inline batch_reads offsets picked hp b =
      let head : List ℕ = bare_head (consistent base_policy.consistency_level 9) 0 1 0 in
      let front : List ℕ → List ℕ =
        λ rows. endian.be32 (length offsets % 2 ^ 32) ++ ((if allow_inline then 1 else 0) ∷ rows) in
      set_batch_read-Builds (plain_policy base_policy allow_inline) batch_reads offsets picked tt hp
        b
      ∙ ap (built b head)
          (sized_field-0 FieldType.batch_index (front (batch_rows false none offsets picked)))
      ∙ ap (λ rows. built b head (field FieldType.batch_index (front rows)))
          (batch_rows-unsent none offsets picked)
