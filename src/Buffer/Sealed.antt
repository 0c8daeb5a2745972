-- ===== src/Buffer/Sealed.antt =====
-- commands/buffer.rs: `end` and `read_msg_size`, the size word of a message.
use aerospike_client_rust.Base.{
  ℕ, ◌+◌, ◌-◌, ◌*◌, ◌%◌, ◌^◌, ◌≤◌, ◌<◌, ◌≡◌, refl, sym, ap, ◌∙◌, true, false, List, [], ◌++◌,
  length, take, some, drop, leb, take-append, bit_and, bit_and-mask, length-append, overwrite,
  overwrite-splice, split_at, ltb, arith, bit_or, bit_or-shifted, as_signed, as_unsigned,
  Bool-cases, inl, inr,
}
use native.Mathlib.Nat.{mod-eq_of_lt}
use aerospike_client_rust.Outcome.{ok, pure, >>=-ok, >>-ok}
use aerospike_client_rust.Buffer.{Buffer, append}
use aerospike_client_rust.Buffer.Endian.{Endian}
use aerospike_client_rust.Buffer.Sizing.{size_word, reset_offset, end}
use aerospike_client_rust.Buffer.Reads.{slice, read_word, read_u64, read_i64, read_msg_size}
use aerospike_client_rust.Buffer.Building
use aerospike_client_rust.Buffer.Building.{Writes}

-- The size word of a message: the number of bytes behind it, then the type 3 and the version 2.
pub size_word_lem : (n : ℕ) → 8 ≤ n → n < 2 ^ 48 → size_word n ≡ n - 8 + 515 * 2 ^ 48
unfolding size_word
size_word_lem n lo hi =
    let x : ℕ = n - 8 in
    let small : x % 2 ^ 64 ≡ x = mod-eq_of_lt (omega arith) in
    let bare : x ≡ x + 0 * 2 ^ 56 = omega arith in
    let version : bit_or (x + 0 * 2 ^ 56) (2 * 2 ^ 56) ≡ x + 512 * 2 ^ 48 =
      bit_or-shifted 56 x 0 2 (omega arith) ∙ omega arith in
    ap (λ y. bit_or (bit_or y (2 * 2 ^ 56)) (3 * 2 ^ 48)) (small ∙ bare)
    ∙ ap (λ y. bit_or y (3 * 2 ^ 48)) version
    ∙ bit_or-shifted 48 x 512 3 (omega arith)

as_word : (w : ℕ) → w < 2 ^ 64 → as_unsigned (2 ^ 64) (as_signed (2 ^ 63) w) ≡ w
as_word w h = elim (Bool-cases (ltb w (2 ^ 63))) [
  | inl e ↦ rw e (mod-eq_of_lt h)
  | inr e ↦ rw e (omega arith)
]

within : (a n : ℕ) → a ≤ n → leb a n ≡ true
within a n h = ground arith

slice_lem :
    (b : Buffer) (pos len : ℕ)
    → leb (pos + len) (length b.data_buffer) ≡ true
    → slice pos len b ≡ ok (take len (drop pos b.data_buffer), b)
unfolding slice
slice_lem b pos len e = rw e refl

-- The mask takes the type and the version off the size word.
masked : (n : ℕ) → 8 ≤ n → n < 2 ^ 48 → bit_and (size_word n) 0xffff_ffff_ffff ≡ n - 8
masked n lo hi = bit_and-mask 48 (size_word n) ∙ omega (arith, size_word_lem n lo hi)

module _ ⦃endian : Endian⦄ where
  open endian use {be64}

  -- `end` changes the first eight bytes and moves the offset behind them.
  pub end_lem :
      (b : Buffer)
      → 8 ≤ b.data_offset
      → b.data_offset < 2 ^ 48
      → 8 ≤ length b.data_buffer
      → end b
        ≡ ok (
          tt,
          record b {
            data_buffer = overwrite b.data_buffer 0 (be64 (size_word b.data_offset));
            data_offset = 8;
          },
        )
  unfolding end reset_offset append
  end_lem b lo hi room =
      let n : ℕ = b.data_offset in
      let z : Buffer = record b { data_offset = 0 } in
      let late : ltb n 8 ≡ false = ground arith in
      let small : size_word n < 2 ^ 64 = omega (arith, size_word_lem n lo hi) in
      let fits : 0 + length (be64 (as_unsigned (2 ^ 64) (as_signed (2 ^ 63) (size_word n))))
          ≤ length b.data_buffer =
        omega
          (arith, endian.length-be64 (as_unsigned (2 ^ 64) (as_signed (2 ^ 63) (size_word n)))) in
      let moved : 0 + length (be64 (size_word n)) ≡ 8 =
        omega (arith, endian.length-be64 (size_word n)) in
      rw late (
        >>-ok reset_offset _ refl
        ∙ (Building.Writes-last tt (Building.Writes-i64 (as_signed (2 ^ 63) (size_word n)))).runs z
            fits
        ∙ ap (λ w. ok (tt, append z (be64 w))) (as_word (size_word n) small)
        ∙ ap
            (λ k. ok (
              tt,
              record b {
                data_buffer = overwrite b.data_buffer 0 (be64 (size_word n));
                data_offset = k;
              },
            ))
            moved)

  -- The word at the front of a buffer, read at the position 0.
  read_front :
      (b : Buffer) (v : ℕ) (back : List ℕ)
      → b.data_buffer ≡ be64 v ++ back
      → v < 2 ^ 64
      → read_u64 (some 0) b ≡ ok (v, b)
  unfolding read_u64 read_word
  read_front b v back e h =
      let l : length (be64 v) ≡ 8 = endian.length-be64 v in
      let room : leb 8 (length b.data_buffer) ≡ true =
        within 8 (length b.data_buffer) (omega (arith, ap length e, length-append (be64 v) back)) in
      let cut : take 8 b.data_buffer ≡ be64 v =
        ap (take 8) e ∙ ap (λ n. take n (be64 v ++ back)) (sym l) ∙ take-append (be64 v) back in
      >>=-ok (slice 0 8) (λ bytes. pure (endian.from_be64 bytes)) (slice_lem b 0 8 room)
      ∙ ap (λ w. ok (endian.from_be64 w, b)) cut
      ∙ ap (λ w. ok (w, b)) (endian.from_be64-be64 v h)

  -- On a buffer with room for a size word whose offset is at least 8 and below 2 ^ 48, `end`
  -- succeeds, and `read_msg_size` at the front of what it leaves gives the number of bytes between
  -- the size word and the old offset.
  pub read_msg_size-end :
      (b : Buffer)
      → 8 ≤ b.data_offset
      → b.data_offset < 2 ^ 48
      → 8 ≤ length b.data_buffer
      → (c : Buffer) × (end b ≡ ok (tt, c)) × (read_msg_size (some 0) c ≡ ok (b.data_offset - 8, c))
  unfolding read_msg_size read_i64
  read_msg_size-end b lo hi room =
      let n : ℕ = b.data_offset in
      let word : List ℕ = be64 (size_word n) in
      let (front, back, e, l) = split_at 8 b.data_buffer room in
      let c : Buffer = record b { data_buffer = overwrite b.data_buffer 0 word; data_offset = 8 } in
      let same : length front ≡ length word = omega (arith, endian.length-be64 (size_word n)) in
      let small : size_word n < 2 ^ 64 = omega (arith, size_word_lem n lo hi) in
      let bytes : c.data_buffer ≡ word ++ back =
        ap (λ d. overwrite d 0 word) e ∙ overwrite-splice [] front word back same in
      let signed : read_i64 (some 0) c ≡ ok (as_signed (2 ^ 63) (size_word n), c) =
        >>=-ok (read_u64 (some 0)) (λ v. pure (as_signed (2 ^ 63) v))
          (read_front c (size_word n) back bytes small) in
      (
        c,
        end_lem b lo hi room,
        >>=-ok (read_i64 (some 0)) (λ z. pure (bit_and (as_unsigned (2 ^ 64) z) 0xffff_ffff_ffff))
              signed
            ∙ ap (λ w. ok (bit_and w 0xffff_ffff_ffff, c)) (as_word (size_word n) small)
            ∙ ap (λ w. ok (w, c)) (masked n lo hi),
      )
