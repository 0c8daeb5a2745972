-- ===== src/Buffer/Rewound.antt =====
-- Reading back from where a run of bytes was written.
use aerospike_client_rust.Base.{
  ℕ, ◌+◌, ◌≤◌, ◌≡◌, refl, sym, ap, ap₂, ◌∙◌, List, ◌++◌, length, drop, overwrite, length-overwrite,
  overwrite-splice, drop-append, split_at, length-append, arith,
}
use aerospike_client_rust.Buffer.{Buffer, Fits, append}
use aerospike_client_rust.Buffer.Parsing.{At}

-- `buf.data_offset = offset`
abbrev pub rewind : Buffer → ℕ → Buffer
rewind b offset = record b { data_offset = offset }

drop-overwrite :
    (d bs : List ℕ) (o : ℕ)
    → o + length bs ≤ length d
    → (rest : List ℕ) × (drop o (overwrite d o bs) ≡ bs ++ rest)
drop-overwrite d bs o h =
    let (front, back, e, l) = split_at o d (omega arith) in
    let (old, rest, e', l') =
      split_at (length bs) back (omega (arith, ap length e, length-append front back)) in
    let written : overwrite d o bs ≡ front ++ (bs ++ rest) =
      ap₂ (λ x n. overwrite x n bs) (e ∙ ap (◌++◌ front) e') (sym l)
      ∙ overwrite-splice front old bs rest l' in
    (rest, ap₂ drop (sym l) written ∙ drop-append front (bs ++ rest))

-- After a write the written bytes lie ahead of the old offset.
pub append-At :
    (b : Buffer) (bs : List ℕ)
    → Fits b (length bs)
    → (rest : List ℕ) × At (rewind (append b bs) b.data_offset) (bs ++ rest)
unfolding append
append-At b bs h =
    let (rest, e) = drop-overwrite b.data_buffer bs b.data_offset h in
    (
      rest,
      record { within = omega (arith, length-overwrite bs b.data_buffer b.data_offset); ahead = e },
    )

pub length-append_buffer :
    (b : Buffer) (bs : List ℕ) → length (append b bs).data_buffer ≡ length b.data_buffer
unfolding append
length-append_buffer b bs = length-overwrite bs b.data_buffer b.data_offset

pub advance-rewind :
    (b : Buffer) (bs : List ℕ)
    → record (rewind (append b bs) b.data_offset) { data_offset = b.data_offset + length bs }
      ≡ append b bs
unfolding append
advance-rewind b bs = refl
