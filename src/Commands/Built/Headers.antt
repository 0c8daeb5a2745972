-- ===== src/Commands/Built/Headers.antt =====
-- commands/buffer.rs: `write_header` and `write_header_with_policy` against the wire format.
use aerospike_client_rust.Base.{
  ℕ, zero, suc, ◌+◌, ◌≤◌, ◌≡◌, refl, sym, ap, ◌∙◌, List, [], ◌∷◌, ◌++◌, length, set, replicate,
  length-append, length-replicate, length-set, overwrite, length-overwrite, overwrite-append,
  append-nil, arith, lt→ltb,
}
use mathlib.Core.Path.{subst}
use aerospike_client_rust.Outcome.{ok, ◌>>◌, >>-ok}
use aerospike_client_rust.Buffer.{Buffer, M, Fits, append}
use aerospike_client_rust.Buffer.Endian.{Endian}
use aerospike_client_rust.Buffer.Writes.{write_u8}
use aerospike_client_rust.Buffer.Building
use aerospike_client_rust.Buffer.Building.{
  Writes, append-nil_lem, append-append, Fits-front, Fits-append,
}
use aerospike_client_rust.Policy
use aerospike_client_rust.Policy.{BasePolicy, WritePolicy}
use aerospike_client_rust.Commands.Header.{
  put_at, clear_from, set_offset, with_consistency, sent_generation, info_attr_of, write_attr_of,
  write_header, write_header_with_policy,
}
use aerospike_client_rust.Commands.Built.Passes.{Heads}
use aerospike_client_rust.Commands.Built.Layout.{bare_head, full_head}

-- `m` writes `bs` at the offset and leaves the offset behind the header.
record Ends (m : M (Unit {0})) (bs : List ℕ) : Type 0 where
  ends :
      (b : Buffer)
      → Fits b (length bs)
      → m b
        ≡ ok (
          tt,
          record b { data_buffer = overwrite b.data_buffer b.data_offset bs; data_offset = 30 },
        )

Ends-set : Ends (set_offset 30) []
unfolding set_offset overwrite
Ends-set = record { ends = λ b h. refl }

Ends->> :
    {A : Type 0} {m : M A} {k : M (Unit {0})} {r : A} {bs cs : List ℕ}
    → Writes m r bs
    → Ends k cs
    → Ends (m >> k) (bs ++ cs)
unfolding append
Ends->> {m = m} {k = k} {bs = bs} {cs = cs} p q = record {
  ends = λ b h.
      >>-ok m k (p.runs b (Fits-front b bs cs h))
      ∙ q.ends (append b bs) (Fits-append b bs cs h)
      ∙ ap (λ d. ok (tt, record b { data_buffer = d; data_offset = 30 }))
          (overwrite-append bs cs b.data_buffer b.data_offset);
}

Ends-u8 : {k : M (Unit {0})} (v : ℕ) {cs : List ℕ} → Ends k cs → Ends (write_u8 v >> k) (v ∷ cs)
Ends-u8 v q = Ends->> (Building.Writes-u8 v) q

Ends-last :
    {A : Type 0} {m : M A} {r : A} {bs : List ℕ} → Writes m r bs → Ends (m >> set_offset 30) bs
Ends-last {m = m} {bs = bs} p =
    subst (λ t. Ends (m >> set_offset 30) t) (append-nil bs) (Ends->> p Ends-set)

-- `m` writes `bs` at the position `o` and leaves the offset behind the header.
record Lays (m : M (Unit {0})) (o : ℕ) (bs : List ℕ) : Type 0 where
  lays :
      (b : Buffer)
      → o + length bs ≤ length b.data_buffer
      → m b ≡ ok (tt, record b { data_buffer = overwrite b.data_buffer o bs; data_offset = 30 })

put_at_lem :
    (i v : ℕ) (b : Buffer)
    → suc i ≤ length b.data_buffer
    → put_at i v b ≡ ok (tt, record b { data_buffer = set b.data_buffer i v })
unfolding put_at
put_at_lem i v b h = rw (lt→ltb i (length b.data_buffer) h) refl

Lays-put :
    {k : M (Unit {0})} (o v : ℕ) {bs : List ℕ}
    → Lays k (suc o) bs
    → Lays (put_at o v >> k) o (v ∷ bs)
unfolding overwrite
Lays-put {k = k} o v p = record {
  lays = λ b h.
      >>-ok (put_at o v) k (put_at_lem o v b (omega arith))
      ∙ p.lays (record b { data_buffer = set b.data_buffer o v })
          (omega (arith, length-set b.data_buffer o v));
}

clear_from_lem :
    (n o : ℕ) (b : Buffer)
    → o + n ≤ length b.data_buffer
    → clear_from o n b
      ≡ ok (tt, record b { data_buffer = overwrite b.data_buffer o (replicate n 0) })
unfolding clear_from overwrite
clear_from_lem zero o b h = refl
clear_from_lem (suc n) o b h =
    >>-ok (put_at o 0) (clear_from (suc o) n) (put_at_lem o 0 b (omega arith))
    ∙ clear_from_lem n (suc o) (record b { data_buffer = set b.data_buffer o 0 })
        (omega (arith, length-set b.data_buffer o 0))

Lays-clear :
    {k : M (Unit {0})} (o n : ℕ) {bs : List ℕ}
    → Lays k (o + n) bs
    → Lays (clear_from o n >> k) o (replicate n 0 ++ bs)
Lays-clear {k = k} o n {bs = bs} p = record {
  lays = λ b h.
      let zeros : List ℕ = replicate n 0 in
      let d : List ℕ = overwrite b.data_buffer o zeros in
      let same : length zeros ≡ n = length-replicate n 0 in
      >>-ok (clear_from o n) k (clear_from_lem n o b (omega (arith, same, length-append zeros bs)))
      ∙ p.lays (record b { data_buffer = d })
          (omega (arith, same, length-append zeros bs, length-overwrite zeros b.data_buffer o))
      ∙ ap (λ x. ok (tt, record b { data_buffer = overwrite d (o + x) bs; data_offset = 30 }))
          (sym same)
      ∙ ap (λ x. ok (tt, record b { data_buffer = x; data_offset = 30 }))
          (overwrite-append zeros bs b.data_buffer o);
}

Lays-at : {k : M (Unit {0})} (o : ℕ) {bs : List ℕ} → Ends k bs → Lays (set_offset o >> k) o bs
unfolding set_offset
Lays-at {k = k} o p = record {
  lays = λ b h. >>-ok (set_offset o) k refl ∙ p.ends (record b { data_offset = o }) h;
}

Heads-Lays : {m : M (Unit {0})} {head : List ℕ} → length head ≡ 22 → Lays m 8 head → Heads m head
Heads-Lays e p = record { length_head = e; heads = λ b h. p.lays b (omega arith) }

module _ ⦃endian : Endian⦄ where
  open endian use {be16, be32}

  length-bare_head :
      (read_attr write_attr fields operations : ℕ)
      → length (bare_head read_attr write_attr fields operations) ≡ 22
  unfolding bare_head
  length-bare_head read_attr write_attr fields operations = omega (
    arith,
    length-append (be16 fields) (be16 operations),
    endian.length-be16 fields,
    endian.length-be16 operations,
  )

  length-full_head :
      (read_attr write_attr info_attr generation expiration fields operations : ℕ)
      → length (full_head read_attr write_attr info_attr generation expiration fields operations)
        ≡ 22
  unfolding full_head
  length-full_head read_attr write_attr info_attr generation expiration fields operations =
      let counts : List ℕ = be16 fields ++ be16 operations in
      let back : List ℕ = 0 ∷ 0 ∷ 0 ∷ 0 ∷ counts in
      omega (
        arith,
        length-append (be32 generation) (be32 expiration ++ back),
        length-append (be32 expiration) back,
        length-append (be16 fields) (be16 operations),
        endian.length-be16 fields,
        endian.length-be16 operations,
        endian.length-be32 generation,
        endian.length-be32 expiration,
      )

module _ ⦃endian : Endian⦄ {F : Type 0} where
  pub write_header-coded :
      (policy : BasePolicy F) (read_attr write_attr fields operations : ℕ)
      → Heads (write_header policy read_attr write_attr fields operations) (
          bare_head
            (with_consistency policy.consistency_level read_attr)
            write_attr
            fields
            operations)
  unfolding write_header bare_head
  write_header-coded policy read_attr write_attr fields operations =
      Heads-Lays
        (length-bare_head (with_consistency policy.consistency_level read_attr) write_attr fields
          operations)
        (Lays-put 8 22 (
          Lays-put 9 _ (
            Lays-put 10 write_attr (
              Lays-clear 11 15 (
                Lays-at 26 (
                  Ends->> (Building.Writes-u16 fields)
                    (Ends-last (Building.Writes-u16 operations))))))))

  pub write_header_with_policy-coded :
      (policy : WritePolicy F) (read_attr write_attr fields operations : ℕ)
      → Heads (write_header_with_policy policy read_attr write_attr fields operations) (
          full_head
            (with_consistency policy.base_policy.consistency_level read_attr)
            (write_attr_of policy write_attr)
            (info_attr_of policy)
            (sent_generation policy.generation_policy policy.generation)
            (Policy.ttl policy.expiration)
            fields
            operations)
  unfolding write_header_with_policy full_head
  write_header_with_policy-coded policy read_attr write_attr fields operations =
      Heads-Lays
        (length-full_head (with_consistency policy.base_policy.consistency_level read_attr)
          (write_attr_of policy write_attr) (info_attr_of policy)
          (sent_generation policy.generation_policy policy.generation)
          (Policy.ttl policy.expiration) fields operations)
        (Lays-at 8 (
          Ends-u8 22 (
            Ends-u8 _ (
              Ends-u8 _ (
                Ends-u8 _ (
                  Ends-u8 0 (
                    Ends-u8 0 (
                      Ends->> (Building.Writes-u32 _) (
                        Ends->> (Building.Writes-u32 _) (
                          Ends-u8 0 (
                            Ends-u8 0 (
                              Ends-u8 0 (
                                Ends-u8 0 (
                                  Ends->> (Building.Writes-u16 fields)
                                    (Ends-last (Building.Writes-u16 operations))))))))))))))))
