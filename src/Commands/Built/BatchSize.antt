-- ===== src/Commands/Built/BatchSize.antt =====
-- commands/buffer.rs: the size that `set_batch_read` puts into the field of the batch.
use aerospike_client_rust.Base.{
  ℕ, suc, ◌+◌, ◌-◌, ◌%◌, ◌^◌, ◌≤◌, ◌<◌, ◌≡◌, refl, sym, ap, ◌∙◌, true, false, List, ◌∷◌, ◌++◌,
  length, length-append, append_assoc, overwrite, length-overwrite, overwrite-splice, split_at,
  arith, leb, ltb,
}
use native.Mathlib.Nat.{mod-eq_of_lt}
use aerospike_client_rust.Outcome.{ok}
use aerospike_client_rust.Buffer.{Buffer, Fits, append}
use aerospike_client_rust.Buffer.Endian.{Endian}
use aerospike_client_rust.Commands.FieldType
use aerospike_client_rust.Commands.FieldType.{FieldType}
use aerospike_client_rust.Commands.Batch.{write_batch_size}
use aerospike_client_rust.Commands.Built.BatchLayout.{sized_field}

-- The front of a run that was written is written again.
overwrite-again :
    {A : Type 0} (d old new rest : List A) (o : ℕ)
    → length old ≡ length new
    → o + length (old ++ rest) ≤ length d
    → overwrite (overwrite d o (old ++ rest)) o new ≡ overwrite d o (new ++ rest)
overwrite-again d old new rest o same room =
    let (front, tail, e, l) = split_at o d (omega arith) in
    let fits : length (old ++ rest) ≤ length tail =
      omega (arith, length-append front tail, ap length e) in
    let (mid, back, e', l') = split_at (length (old ++ rest)) tail fits in
    let d' : d ≡ front ++ (mid ++ back) = e ∙ ap (λ x. front ++ x) e' in
    let first : overwrite d o (old ++ rest) ≡ front ++ (old ++ (rest ++ back)) =
      ap (λ k. overwrite d k (old ++ rest)) (sym l)
      ∙ ap (λ x. overwrite x (length front) (old ++ rest)) d'
      ∙ overwrite-splice front mid (old ++ rest) back l'
      ∙ ap (λ x. front ++ x) (append_assoc old rest back) in
    let second : overwrite d o (new ++ rest) ≡ front ++ (new ++ (rest ++ back)) =
      ap (λ k. overwrite d k (new ++ rest)) (sym l)
      ∙ ap (λ x. overwrite x (length front) (new ++ rest)) d'
      ∙ overwrite-splice front mid (new ++ rest) back
          (omega (arith, length-append old rest, length-append new rest))
      ∙ ap (λ x. front ++ x) (append_assoc new rest back) in
    ap (λ x. overwrite x o new) first
    ∙ ap (λ k. overwrite (front ++ (old ++ (rest ++ back))) k new) (sym l)
    ∙ overwrite-splice front old new (rest ++ back) same
    ∙ sym second

module _ ⦃endian : Endian⦄ where
  open endian use {be32}

  pub length-sized :
      (word ftype : ℕ) (bs : List ℕ) → length (be32 word ++ (ftype ∷ bs)) ≡ 5 + length bs
  length-sized word ftype bs =
      omega (arith, length-append (be32 word) (ftype ∷ bs), endian.length-be32 word)

  write_batch_size-ok :
      (o : ℕ) (b : Buffer)
      → ltb b.data_offset 34 ≡ false
      → leb (o + 4) (length b.data_buffer) ≡ true
      → write_batch_size o b
        ≡ ok (
          tt,
          record b {
            data_buffer = overwrite b.data_buffer o (be32 ((b.data_offset - 30 - 4) % 2 ^ 32));
          },
        )
  unfolding write_batch_size
  write_batch_size-ok o b h k = rw (h, k) refl

  -- The size that is put where the field starts, over the header that was written with none.
  pub write_batch_size-sized :
      (ftype : FieldType) (bs : List ℕ) (n : ℕ) (b : Buffer)
      → b.data_offset ≡ 30 + n
      → Fits b (length (be32 1 ++ (FieldType.code ftype ∷ bs)))
      → n + suc (length bs) < 2 ^ 32
      → write_batch_size b.data_offset (append b (be32 1 ++ (FieldType.code ftype ∷ bs)))
        ≡ ok (tt, append b (sized_field n ftype bs))
  unfolding append sized_field
  write_batch_size-sized ftype bs n b at room small =
      let o : ℕ = b.data_offset in
      let size : ℕ = n + suc (length bs) in
      let all : List ℕ = FieldType.code ftype ∷ bs in
      let old : length (be32 1 ++ all) ≡ 5 + length bs = length-sized 1 (FieldType.code ftype) bs in
      let new : length (be32 size ++ all) ≡ 5 + length bs =
        length-sized size (FieldType.code ftype) bs in
      let counted : o + length (be32 1 ++ all) - 30 - 4 ≡ size = omega arith in
      let whole : (o + length (be32 1 ++ all) - 30 - 4) % 2 ^ 32 ≡ size =
        ap (λ k. k % 2 ^ 32) counted ∙ mod-eq_of_lt small in
      let same : length (be32 1) ≡ length (be32 size) =
        endian.length-be32 1 ∙ sym (endian.length-be32 size) in
      let reached : ltb (o + length (be32 1 ++ all)) 34 ≡ false = ground arith in
      let kept : length (overwrite b.data_buffer o (be32 1 ++ all)) ≡ length b.data_buffer =
        length-overwrite (be32 1 ++ all) b.data_buffer o in
      let inside : leb (o + 4) (length (overwrite b.data_buffer o (be32 1 ++ all))) ≡ true =
        ground arith in
      let bytes : overwrite (overwrite b.data_buffer o (be32 1 ++ all)) o
            (be32 ((o + length (be32 1 ++ all) - 30 - 4) % 2 ^ 32))
          ≡ overwrite b.data_buffer o (be32 size ++ all) =
        ap (λ k. overwrite (overwrite b.data_buffer o (be32 1 ++ all)) o (be32 k)) whole
        ∙ overwrite-again b.data_buffer (be32 1) (be32 size) all o same room in
      let ends : o + length (be32 1 ++ all) ≡ o + length (be32 size ++ all) = omega arith in
      write_batch_size-ok o (append b (be32 1 ++ all)) reached inside ∙ (λ i. ok (
        tt,
        record {
          data_buffer = bytes i;
          data_offset = ends i;
          reclaim_threshold = b.reclaim_threshold;
        },
      ))
