-- ===== src/Buffer/Building.antt =====
-- What a sequence of writes builds: `Writes m r bs` says that `m` returns `r` and puts the bytes
-- `bs` at the offset of every buffer that has room for them, and changes nothing else.
use aerospike_client_rust.Base.{
  ℕ, ◌+◌, ◌^◌, ◌≡◌, refl, sym, ap, ◌∙◌, List, [], ◌∷◌, ◌++◌, length, overwrite, length-append,
  length-overwrite, overwrite-append, append-nil, arith, Bool, true, false, if◌then◌else◌, lt→ltb,
  ℤ, pos, as_unsigned,
}
use mathlib.Core.Path.{subst}
use aerospike_client_rust.Outcome.{Outcome, ok, pure, ◌>>=◌, ◌>>◌, >>=-ok, >>-ok, lift}
use aerospike_client_rust.Buffer.{Buffer, M, Fits, append}
use aerospike_client_rust.Buffer.Endian.{Endian}
use aerospike_client_rust.Buffer.Writes.{
  write_u8, write_i8, fill, write_u16, write_u16_little_endian, write_u32, write_u64, write_i16,
  write_i32, write_i64, write_f32, write_f64, write_bool, write_each, write_bytes, write_str,
  write_geo,
}

pub record Writes {A : Type 0} (m : M A) (r : A) (bs : List ℕ) : Type 0 where
  pub runs : (b : Buffer) → Fits b (length bs) → m b ≡ ok (r, append b bs)

pub append-nil_lem : (b : Buffer) → append b [] ≡ b
unfolding append overwrite
append-nil_lem b =
    let e : b.data_offset + 0 ≡ b.data_offset = omega arith in
    λ i. record {
      data_buffer = b.data_buffer;
      data_offset = e i;
      reclaim_threshold = b.reclaim_threshold;
    }

pub append-append : (b : Buffer) (bs cs : List ℕ) → append (append b bs) cs ≡ append b (bs ++ cs)
unfolding append
append-append b bs cs =
    let e : b.data_offset + length bs + length cs ≡ b.data_offset + length (bs ++ cs) =
      omega (arith, length-append bs cs) in
    λ i. record {
      data_buffer = overwrite-append bs cs b.data_buffer b.data_offset i;
      data_offset = e i;
      reclaim_threshold = b.reclaim_threshold;
    }

pub Fits-append :
    (b : Buffer) (bs cs : List ℕ) → Fits b (length (bs ++ cs)) → Fits (append b bs) (length cs)
unfolding append
Fits-append b bs cs h =
    omega (arith, length-append bs cs, length-overwrite bs b.data_buffer b.data_offset)

pub Fits-front : (b : Buffer) (bs cs : List ℕ) → Fits b (length (bs ++ cs)) → Fits b (length bs)
Fits-front b bs cs h = omega (arith, length-append bs cs)

-- The rules for sequences.
pub Writes-pure : {A : Type 0} (a : A) → Writes (pure a) a []
Writes-pure a = record { runs = λ b h i. ok (a, sym (append-nil_lem b) i) }

pub Writes->>= :
    {A B : Type 0} {m : M A} (f : A → M B) {r : A} {s : B} {bs cs : List ℕ}
    → Writes m r bs
    → Writes (f r) s cs
    → Writes (m >>= f) s (bs ++ cs)
Writes->>= {m = m} f {r = r} {s = s} {bs = bs} {cs = cs} p q = record {
  runs = λ b h.
      >>=-ok m f (p.runs b (Fits-front b bs cs h))
      ∙ q.runs (append b bs) (Fits-append b bs cs h)
      ∙ ap (λ c. ok (s, c)) (append-append b bs cs);
}

pub Writes->> :
    {A B : Type 0} {m : M A} {k : M B} {r : A} {s : B} {bs cs : List ℕ}
    → Writes m r bs
    → Writes k s cs
    → Writes (m >> k) s (bs ++ cs)
Writes->> {m = m} {k = k} {r = r} {s = s} {bs = bs} {cs = cs} p q = record {
  runs = λ b h.
      >>-ok m k (p.runs b (Fits-front b bs cs h))
      ∙ q.runs (append b bs) (Fits-append b bs cs h)
      ∙ ap (λ c. ok (s, c)) (append-append b bs cs);
}

pub Writes-eq :
    {A : Type 0} {m : M A} {r : A} {bs cs : List ℕ} → Writes m r bs → bs ≡ cs → Writes m r cs
Writes-eq {m = m} {r = r} w e = subst (λ t. Writes m r t) e w

-- A block that ends in `Ok(r)` writes what its last write does.
pub Writes-last :
    {A B : Type 0} {m : M A} {r : A} (s : B) {bs : List ℕ}
    → Writes m r bs
    → Writes (m >> pure s) s bs
Writes-last s {bs = bs} w = Writes-eq (Writes->> w (Writes-pure s)) (append-nil bs)

-- A block that ends in `Ok(f(r))`.
pub Writes-map :
    {A B : Type 0} {m : M A} (f : A → B) {r : A} {bs : List ℕ}
    → Writes m r bs
    → Writes (m >>= (λ x. pure (f x))) (f r) bs
Writes-map f {r = r} {bs = bs} w =
    Writes-eq (Writes->>= (λ x. pure (f x)) w (Writes-pure (f r))) (append-nil bs)

-- The single writes.
pub Writes-u8 : (v : ℕ) → Writes (write_u8 v) 1 (v ∷ [])
Writes-u8 v = record { runs = λ b h. u8_runs b h }
  where
    u8_runs : (b : Buffer) → Fits b 1 → write_u8 v b ≡ ok (1, append b (v ∷ []))
    u8_runs b h =
        unfold write_u8 append overwrite in
        rw (lt→ltb b.data_offset (length b.data_buffer) (omega arith)) refl

Writes-fill : (bs : List ℕ) (n : ℕ) → length bs ≡ n → Writes (fill bs n) n bs
unfolding fill append
Writes-fill bs n e = record { runs = λ b h. ground arith }

pub Writes-write_i8 : (z : ℤ) → Writes (write_i8 z) 1 (as_unsigned (2 ^ 8) z ∷ [])
unfolding write_i8
Writes-write_i8 z = Writes-u8 _

pub Writes-bool : (v : Bool) → Writes (write_bool v) 1 ((if v then 1 else 0) ∷ [])
unfolding write_bool
Writes-bool true = Writes-write_i8 (pos 1)
Writes-bool false = Writes-write_i8 (pos 0)

Writes-each : (bs : List ℕ) → Writes (write_each bs) tt bs
unfolding write_each
Writes-each [] = Writes-pure tt
Writes-each (x ∷ xs) = Writes->> (Writes-u8 x) (Writes-each xs)

pub Writes-bytes : (bs : List ℕ) → Writes (write_bytes bs) (length bs) bs
unfolding write_bytes
Writes-bytes bs = Writes-last (length bs) (Writes-each bs)

pub Writes-str : (bs : List ℕ) → Writes (write_str bs) (length bs) bs
unfolding write_str
Writes-str bs = Writes-bytes bs

pub Writes-geo : (bs : List ℕ) → Writes (write_geo bs) (3 + length bs) (0 ∷ 0 ∷ 0 ∷ bs)
unfolding write_geo
Writes-geo bs =
    Writes->> (Writes-u8 0)
      (Writes->> (Writes-u8 0) (Writes->> (Writes-u8 0) (Writes-last _ (Writes-bytes bs))))

module _ ⦃endian : Endian⦄ where
  open endian use {be16, be32, be64, le16}

  pub Writes-u16 : (v : ℕ) → Writes (write_u16 v) 2 (be16 v)
  unfolding write_u16
  Writes-u16 v = Writes-fill _ 2 (endian.length-be16 v)

  pub Writes-u16_little_endian : (v : ℕ) → Writes (write_u16_little_endian v) 2 (le16 v)
  unfolding write_u16_little_endian
  Writes-u16_little_endian v = Writes-fill _ 2 (endian.length-le16 v)

  pub Writes-u32 : (v : ℕ) → Writes (write_u32 v) 4 (be32 v)
  unfolding write_u32
  Writes-u32 v = Writes-fill _ 4 (endian.length-be32 v)

  pub Writes-u64 : (v : ℕ) → Writes (write_u64 v) 8 (be64 v)
  unfolding write_u64
  Writes-u64 v = Writes-fill _ 8 (endian.length-be64 v)

  pub Writes-i16 : (z : ℤ) → Writes (write_i16 z) 2 (be16 (as_unsigned (2 ^ 16) z))
  unfolding write_i16
  Writes-i16 z = Writes-u16 _

  pub Writes-i32 : (z : ℤ) → Writes (write_i32 z) 4 (be32 (as_unsigned (2 ^ 32) z))
  unfolding write_i32
  Writes-i32 z = Writes-u32 _

  pub Writes-i64 : (z : ℤ) → Writes (write_i64 z) 8 (be64 (as_unsigned (2 ^ 64) z))
  unfolding write_i64
  Writes-i64 z = Writes-u64 _

  pub Writes-f32 : (bits : ℕ) → Writes (write_f32 bits) 4 (be32 bits)
  unfolding write_f32
  Writes-f32 bits = Writes-fill _ 4 (endian.length-be32 bits)

  pub Writes-f64 : (bits : ℕ) → Writes (write_f64 bits) 8 (be64 bits)
  unfolding write_f64
  Writes-f64 bits = Writes-fill _ 8 (endian.length-be64 bits)

pub Writes-result :
    {A : Type 0} {m : M A} {r s : A} {bs : List ℕ} → Writes m r bs → r ≡ s → Writes m s bs
Writes-result {m = m} {bs = bs} w e = subst (λ t. Writes m t bs) e w

pub Writes-lift : {A : Type 0} (o : Outcome A) {a : A} → o ≡ ok a → Writes (lift o) a []
unfolding lift
Writes-lift o {a} e = record {
  runs = λ b h. rw (e, lift) (ap (λ c. ok (a, c)) (sym (append-nil_lem b)));
}
