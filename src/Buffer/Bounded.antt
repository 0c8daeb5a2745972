-- ===== src/Buffer/Bounded.antt =====
-- commands/buffer.rs: the limit that `resize_buffer` and `size_buffer` keep.
use aerospike_client_rust.Base.{
  ℕ, ◌<◌, ◌≤◌, ◌≡◌, refl, List, ◌+◌, ◌-◌, take, replicate, length-append, zero, suc, ap, ◌∙◌, [],
  ◌∷◌, length-replicate, ◌⊎◌, inl, inr, length, ltb, ltb→lt, Bool-cases, arith,
}
use aerospike_client_rust.Outcome.{ok, err, invalid_buffer_size}
use aerospike_client_rust.Buffer.{Buffer}
use aerospike_client_rust.Buffer.Sizing.{max_buffer_size, resize, resize_buffer}

length-take_all : (n : ℕ) (d : List ℕ) → length (take n d) + (n - length d) ≡ n
length-take_all zero d = omega arith
length-take_all (suc n) [] = omega arith
length-take_all (suc n) (x ∷ d) = omega (arith, length-take_all n d)

pub length-resize : (n : ℕ) (d : List ℕ) → length (resize n d) ≡ n
length-resize n d =
    length-append (take n d) (replicate (n - length d) 0)
    ∙ ap (λ k. length (take n d) + k) (length-replicate (n - length d) 0)
    ∙ length-take_all n d

-- Whatever the buffer holds: a size over the limit is refused with an error that names it, and the
-- buffer gets exactly every other size, with its offset kept, so that no buffer is ever longer than
-- the limit.
pub resize_buffer-bounds :
    (size : ℕ) (b : Buffer)
    → ((max_buffer_size < size) × (resize_buffer size b ≡ err (invalid_buffer_size size)))
      ⊎ ((size ≤ max_buffer_size)
          × (b' : Buffer) × (resize_buffer size b ≡ ok (tt, b'))
          × (length b'.data_buffer ≡ size)
          × (b'.data_offset ≡ b.data_offset))
unfolding resize_buffer
resize_buffer-bounds size b = elim (Bool-cases (ltb max_buffer_size size)) [
  | inl e ↦ inl (ltb→lt max_buffer_size size e, rw e refl)
  | inr e ↦
      let le : size ≤ max_buffer_size = ground arith in
      inr (
        le,
        record b { data_buffer = resize size b.data_buffer },
        rw e refl,
        length-resize size b.data_buffer,
        refl,
      )
]
