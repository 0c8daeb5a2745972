-- ===== src/Commands/Timeout.antt =====
-- commands/buffer.rs: `write_timeout`, which puts the timeout of an attempt into a message that
-- stands in the buffer, and what it leaves of the message. A duration is a number of milliseconds.
use aerospike_client_rust.Base.{
  ℕ, ◌+◌, ◌*◌, ◌/◌, ◌%◌, ◌^◌, ◌<◌, ◌≤◌, ◌≡◌, refl, sym, ap, ◌∙◌, true, Option, none, some, List,
  ◌++◌, length, length-append, append_assoc, overwrite, overwrite-splice, arith, ltb, leb, lt→ltb,
  if◌then◌else◌, as_i32, as_unsigned,
}
use native.Mathlib.Nat.{mod-eq_of_lt}
use aerospike_client_rust.Outcome.{Outcome, ok, panic, pure, ◌>>=◌, >>=-ok, lift}
use aerospike_client_rust.Buffer.{Buffer, M}
use aerospike_client_rust.Buffer.Endian.{Endian}
use aerospike_client_rust.Buffer.Sizing.{size_word}
use aerospike_client_rust.Commands.Fields.{add_i32}
use aerospike_client_rust.Commands.Built.Frames.{message}
use aerospike_client_rust.Commands.Built.Written.{add_i32_small}

-- `a * b` on `u64`
unfoldable pub mul_u64 : ℕ → ℕ → Outcome ℕ
mul_u64 a b = if ltb (a * b) (2 ^ 64) then ok (a * b) else panic

module _ ⦃endian : Endian⦄ where
  open endian use {be32, be64}

  -- `NetworkEndian::write_i32(&mut self.data_buffer[22..22 + 4], millis)`
  unfoldable pub put_timeout : ℕ → M (Unit {0})
  put_timeout millis b =
      if leb 26 (length b.data_buffer)
      then ok (tt, record b { data_buffer = overwrite b.data_buffer 22 (be32 millis) })
      else panic

  unfoldable pub write_timeout : Option ℕ → M (Unit {0})
  write_timeout none = pure tt
  write_timeout (some val) = do
    secs ← lift (mul_u64 (val / 1000) 1000)
    millis ← lift (add_i32 (as_i32 secs) (val % 1000))
    put_timeout (as_unsigned (2 ^ 32) millis)

  put_timeout-ok :
      (millis : ℕ) (b : Buffer)
      → leb 26 (length b.data_buffer) ≡ true
      → put_timeout millis b
        ≡ ok (tt, record b { data_buffer = overwrite b.data_buffer 22 (be32 millis) })
  unfolding put_timeout
  put_timeout-ok millis b h = rw h refl

  -- A message whose header is in three parts, the first of which ends at position 22.
  overwrite-message :
      (pre old new tail body : List ℕ)
      → length pre ≡ 14
      → length old ≡ length new
      → overwrite (message (pre ++ (old ++ tail)) body) 22 new ≡ message (pre ++ (new ++ tail)) body
  unfolding message
  overwrite-message pre old new tail body at same =
      let word : List ℕ = be64 (size_word (30 + length body)) in
      let split : (x : List ℕ)
          → word ++ ((pre ++ (x ++ tail)) ++ body) ≡ (word ++ pre) ++ (x ++ (tail ++ body)) =
        λ x.
          ap (λ y. word ++ y) (append_assoc pre (x ++ tail) body)
          ∙ sym (append_assoc word pre ((x ++ tail) ++ body))
          ∙ ap (λ y. (word ++ pre) ++ y) (append_assoc x tail body) in
      let front : 22 ≡ length (word ++ pre) =
        omega (arith, length-append word pre, endian.length-be64 (size_word (30 + length body))) in
      ap (λ x. overwrite x 22 new) (split old)
      ∙ ap (λ k. overwrite ((word ++ pre) ++ (old ++ (tail ++ body))) k new) front
      ∙ overwrite-splice (word ++ pre) old new (tail ++ body) same
      ∙ sym (split new)

  length-message :
      (pre old tail body : List ℕ)
      → length pre ≡ 14
      → length old ≡ 4
      → leb 26 (length (message (pre ++ (old ++ tail)) body)) ≡ true
  unfolding message
  length-message pre old tail body at size =
      let word : List ℕ = be64 (size_word (30 + length body)) in
      let long : 26 ≤ length (word ++ ((pre ++ (old ++ tail)) ++ body)) = omega (
        arith,
        length-append word ((pre ++ (old ++ tail)) ++ body),
        length-append (pre ++ (old ++ tail)) body,
        length-append pre (old ++ tail),
        length-append old tail,
        endian.length-be64 (size_word (30 + length body)),
      ) in
      ground arith

  lift-ok : {A : Type 0} (o : Outcome A) {a : A} (b : Buffer) → o ≡ ok a → lift o b ≡ ok (a, b)
  unfolding lift
  lift-ok o b e = rw (e, lift) refl

  mul_u64-small : (a b : ℕ) → a * b < 2 ^ 64 → mul_u64 a b ≡ ok (a * b)
  unfolding mul_u64
  mul_u64-small a b h = rw (lt→ltb (a * b) (2 ^ 64) h) refl

  whole_millis : (val : ℕ) → val < 2 ^ 31 → val / 1000 * 1000 + val % 1000 ≡ val
  whole_millis val h = omega arith

  -- `write_timeout` with a duration below 2 ^ 31 milliseconds, for a buffer that holds a message
  -- whose header has four bytes at its position 14: these become the milliseconds, and the rest of
  -- the message and the offset stay as they are.
  pub write_timeout-message :
      (val : ℕ) (pre old tail body : List ℕ) (b : Buffer)
      → val < 2 ^ 31
      → length pre ≡ 14
      → length old ≡ 4
      → b.data_buffer ≡ message (pre ++ (old ++ tail)) body
      → write_timeout (some val) b
        ≡ ok (tt, record b { data_buffer = message (pre ++ (be32 val ++ tail)) body })
  unfolding write_timeout
  write_timeout-message val pre old tail body b small at size held =
      let secs : ℕ = val / 1000 * 1000 in
      let whole : secs + val % 1000 ≡ val = whole_millis val small in
      let room : leb 26 (length b.data_buffer) ≡ true =
        ap (λ d. leb 26 (length d)) held ∙ length-message pre old tail body at size in
      let word : val % 2 ^ 32 ≡ val = mod-eq_of_lt (omega arith) in
      >>=-ok (lift (mul_u64 (val / 1000) 1000)) _
        (lift-ok _ b (mul_u64-small (val / 1000) 1000 (omega arith)))
      ∙ >>=-ok (lift (add_i32 (as_i32 secs) (val % 1000))) _
          (lift-ok _ b (add_i32_small secs (val % 1000) (omega arith)))
      ∙ ap (λ n. put_timeout (n % 2 ^ 32) b) whole
      ∙ ap (λ n. put_timeout n b) word
      ∙ put_timeout-ok val b room
      ∙ ap (λ d. ok (tt, record b { data_buffer = d }))
          (ap (λ d. overwrite d 22 (be32 val)) held
            ∙ overwrite-message pre old (be32 val) tail body at
                (size ∙ sym (endian.length-be32 val)))
