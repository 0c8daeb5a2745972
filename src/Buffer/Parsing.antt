-- ===== src/Buffer/Parsing.antt =====
-- What a sequence of reads takes: `Reads m a bs` says that at the bytes `bs`, whatever follows
-- them, `m` returns `a` and moves the offset over them.
use aerospike_client_rust.Base.{
  ℕ, ◌+◌, ◌^◌, ◌≤◌, ◌<◌, ◌≡◌, refl, sym, ap, ◌∙◌, true, List, [], ◌∷◌, ◌++◌, none, some, length,
  length-append, length-drop, drop-drop, drop-append, take-append, get_elem?-drop, drop, get_elem?,
  append_assoc, append-nil, leb, arith, as_signed,
}
use mathlib.Core.Path.{subst}
use aerospike_client_rust.Outcome.{Outcome, ok, pure, ◌>>=◌, ◌>>◌, >>=-ok, >>-ok, lift}
use aerospike_client_rust.Buffer.{Buffer, M}
use aerospike_client_rust.Buffer.Endian.{Endian}
use aerospike_client_rust.Buffer.Reads.{
  advance, skip_bytes, index, slice, peek, read_word, read_u8, read_i8, read_u16, read_i16,
  read_u32, read_i32, read_u64, read_i64, read_f32, read_f64, is_utf8, read_str, read_blob,
}

-- The bytes from the offset on are `rest`.
pub record At (b : Buffer) (rest : List ℕ) : Type 0 where
  pub within : b.data_offset ≤ length b.data_buffer
  pub ahead : drop b.data_offset b.data_buffer ≡ rest

pub record Reads {A : Type 0} (m : M A) (a : A) (bs : List ℕ) : Type 0 where
  pub takes : (b : Buffer) (rest : List ℕ) → At b (bs ++ rest) → m b ≡ ok (a, advance b (length bs))

-- The bytes ahead lie within the vector.
pub At-length :
    (b : Buffer) (rest : List ℕ) → At b rest → b.data_offset + length rest ≡ length b.data_buffer
At-length b rest h =
    omega (arith, h.within, ap length h.ahead, length-drop b.data_offset b.data_buffer)

pub At-advance :
    (b : Buffer) (bs rest : List ℕ) → At b (bs ++ rest) → At (advance b (length bs)) rest
At-advance b bs rest h = record {
  within = omega (arith, At-length b (bs ++ rest) h, length-append bs rest);
  ahead =
      sym (drop-drop b.data_offset (length bs) b.data_buffer)
      ∙ ap (drop (length bs)) h.ahead
      ∙ drop-append bs rest;
}

advance-advance : (b : Buffer) (m n : ℕ) → advance (advance b m) n ≡ advance b (m + n)
advance-advance b m n =
    let e : b.data_offset + m + n ≡ b.data_offset + (m + n) = omega arith in
    ap (λ k. record b { data_offset = k }) e

advance-zero : (b : Buffer) → advance b 0 ≡ b
advance-zero b =
    let e : b.data_offset + 0 ≡ b.data_offset = omega arith in
    ap (λ k. record b { data_offset = k }) e

pub Reads-pure : {A : Type 0} (a : A) → Reads (pure a) a []
Reads-pure a = record { takes = λ b rest h. ap (λ c. ok (a, c)) (sym (advance-zero b)) }

pub Reads->>= :
    {A B : Type 0} {m : M A} (f : A → M B) {r : A} {s : B} {bs cs : List ℕ}
    → Reads m r bs
    → Reads (f r) s cs
    → Reads (m >>= f) s (bs ++ cs)
Reads->>= {m = m} f {r = r} {s = s} {bs = bs} {cs = cs} p q = record {
  takes = λ b rest h.
      let h' : At b (bs ++ (cs ++ rest)) = subst (At b) (append_assoc bs cs rest) h in
      >>=-ok m f (p.takes b (cs ++ rest) h')
      ∙ q.takes (advance b (length bs)) rest (At-advance b bs (cs ++ rest) h')
      ∙ ap (λ c. ok (s, c)) (advance-advance b (length bs) (length cs))
      ∙ ap (λ n. ok (s, advance b n)) (sym (length-append bs cs));
}

pub Reads->> :
    {A B : Type 0} {m : M A} {k : M B} {r : A} {s : B} {bs cs : List ℕ}
    → Reads m r bs
    → Reads k s cs
    → Reads (m >> k) s (bs ++ cs)
Reads->> {m = m} {k = k} {r = r} {s = s} {bs = bs} {cs = cs} p q = record {
  takes = λ b rest h.
      let h' : At b (bs ++ (cs ++ rest)) = subst (At b) (append_assoc bs cs rest) h in
      >>-ok m k (p.takes b (cs ++ rest) h')
      ∙ q.takes (advance b (length bs)) rest (At-advance b bs (cs ++ rest) h')
      ∙ ap (λ c. ok (s, c)) (advance-advance b (length bs) (length cs))
      ∙ ap (λ n. ok (s, advance b n)) (sym (length-append bs cs));
}

pub Reads-eq :
    {A : Type 0} {m : M A} {a : A} {bs cs : List ℕ} → Reads m a bs → bs ≡ cs → Reads m a cs
Reads-eq {m = m} {a = a} w e = subst (λ t. Reads m a t) e w

pub Reads-result :
    {A : Type 0} {m : M A} {a c : A} {bs : List ℕ} → Reads m a bs → a ≡ c → Reads m c bs
Reads-result {m = m} {bs = bs} r e = subst (λ t. Reads m t bs) e r

pub peek-At : (b : Buffer) (x : ℕ) (rest : List ℕ) → At b (x ∷ rest) → peek b ≡ ok (x, b)
unfolding peek index
peek-At b x rest h =
    let e : get_elem? b.data_buffer b.data_offset ≡ some x =
      sym (get_elem?-drop b.data_offset b.data_buffer) ∙ ap (λ l. get_elem? l 0) h.ahead in
    rw (e, peek, index) refl

slice-At :
    (b : Buffer) (bs rest : List ℕ)
    → At b (bs ++ rest)
    → slice b.data_offset (length bs) b ≡ ok (bs, b)
unfolding slice
slice-At b bs rest h =
    let room : leb (b.data_offset + length bs) (length b.data_buffer) ≡ true =
      ground (arith, At-length b (bs ++ rest) h, length-append bs rest) in
    rw (room, h.ahead, take-append bs rest) refl

pub Reads-u8 : (x : ℕ) → Reads (read_u8 none) x (x ∷ [])
unfolding read_u8 skip_bytes
Reads-u8 x = record {
  takes = λ b rest h. >>=-ok peek _ (peek-At b x rest h) ∙ >>-ok (skip_bytes 1) _ refl;
}

-- A read of `length bs` bytes over a slice.
Reads-slice :
    {A : Type 0} (f : List ℕ → M A) {a : A} (bs : List ℕ)
    → ((b : Buffer) → f bs b ≡ ok (a, advance b (length bs)))
    → Reads ((λ b. slice b.data_offset (length bs) b) >>= f) a bs
Reads-slice f bs g = record {
  takes =
      λ b rest h. >>=-ok (λ c. slice c.data_offset (length bs) c) f (slice-At b bs rest h) ∙ g b;
}

pub skip-ok :
    {A : Type 0} (b : Buffer) (a : A) (n : ℕ) → (skip_bytes n >> pure a) b ≡ ok (a, advance b n)
unfolding skip_bytes
skip-ok b a n = >>-ok (skip_bytes n) (pure a) refl

pub Reads-word :
    (word : List ℕ → ℕ) (len : ℕ) (bs : List ℕ) {x : ℕ}
    → length bs ≡ len
    → word bs ≡ x
    → Reads (read_word word len none) x bs
unfolding read_word
Reads-word word len bs {x} e v =
    subst (λ n. Reads (read_word word n none) x bs) e
      (Reads-slice (λ bytes. skip_bytes (length bs) >> pure (word bytes)) bs
        (λ b. skip-ok b (word bs) (length bs) ∙ ap (λ y. ok (y, advance b (length bs))) v))

pub Reads-map :
    {A B : Type 0} {m : M A} (g : A → B) {a : A} {bs : List ℕ}
    → Reads m a bs
    → Reads (m >>= λ x. pure (g x)) (g a) bs
Reads-map g {bs = bs} r = Reads-eq (Reads->>= _ r (Reads-pure _)) (append-nil bs)

pub Reads-i8 : (x : ℕ) → Reads (read_i8 none) (as_signed (2 ^ 7) x) (x ∷ [])
unfolding read_i8
Reads-i8 x = Reads-map (as_signed (2 ^ 7)) (Reads-u8 x)

module _ ⦃endian : Endian⦄ where
  open endian use {be16, be32, be64}

  pub Reads-u16 : (x : ℕ) → x < 2 ^ 16 → Reads (read_u16 none) x (be16 x)
  unfolding read_u16
  Reads-u16 x h = Reads-word _ 2 (be16 x) (endian.length-be16 x) (endian.from_be16-be16 x h)

  pub Reads-u32 : (x : ℕ) → x < 2 ^ 32 → Reads (read_u32 none) x (be32 x)
  unfolding read_u32
  Reads-u32 x h = Reads-word _ 4 (be32 x) (endian.length-be32 x) (endian.from_be32-be32 x h)

  pub Reads-u64 : (x : ℕ) → x < 2 ^ 64 → Reads (read_u64 none) x (be64 x)
  unfolding read_u64
  Reads-u64 x h = Reads-word _ 8 (be64 x) (endian.length-be64 x) (endian.from_be64-be64 x h)

  pub Reads-i16 : (x : ℕ) → x < 2 ^ 16 → Reads (read_i16 none) (as_signed (2 ^ 15) x) (be16 x)
  unfolding read_i16
  Reads-i16 x h = Reads-map (as_signed (2 ^ 15)) (Reads-u16 x h)

  pub Reads-i32 : (x : ℕ) → x < 2 ^ 32 → Reads (read_i32 none) (as_signed (2 ^ 31) x) (be32 x)
  unfolding read_i32
  Reads-i32 x h = Reads-map (as_signed (2 ^ 31)) (Reads-u32 x h)

  pub Reads-i64 : (x : ℕ) → x < 2 ^ 64 → Reads (read_i64 none) (as_signed (2 ^ 63) x) (be64 x)
  unfolding read_i64
  Reads-i64 x h = Reads-map (as_signed (2 ^ 63)) (Reads-u64 x h)

  pub Reads-f32 : (x : ℕ) → x < 2 ^ 32 → Reads (read_f32 none) x (be32 x)
  unfolding read_f32
  Reads-f32 x h = Reads-word _ 4 (be32 x) (endian.length-be32 x) (endian.from_be32-be32 x h)

  pub Reads-f64 : (x : ℕ) → x < 2 ^ 64 → Reads (read_f64 none) x (be64 x)
  unfolding read_f64
  Reads-f64 x h = Reads-word _ 8 (be64 x) (endian.length-be64 x) (endian.from_be64-be64 x h)

pub Reads-blob : (bs : List ℕ) → Reads (read_blob (length bs)) bs bs
unfolding read_blob
Reads-blob bs = Reads-slice _ bs (λ b. skip-ok b bs (length bs))

pub Reads-str : (bs : List ℕ) → is_utf8 bs ≡ true → Reads (read_str (length bs)) bs bs
unfolding read_str
Reads-str bs valid = Reads-slice _ bs (λ b. rw valid (skip-ok b bs (length bs)))

pub Reads-lift : {A : Type 0} (o : Outcome A) {a : A} → o ≡ ok a → Reads (lift o) a []
unfolding lift
Reads-lift o {a} e = record {
  takes = λ b rest h. rw (e, lift) (ap (λ c. ok (a, c)) (sym (advance-zero b)));
}

-- A look at what lies ahead, which moves nothing.
pub Reads-look :
    {A B : Type 0} (p : M A) (f : A → M B) {a : A} {r : B} (bs : List ℕ)
    → ((b : Buffer) (rest : List ℕ) → At b (bs ++ rest) → p b ≡ ok (a, b))
    → Reads (f a) r bs
    → Reads (p >>= f) r bs
Reads-look p f bs look q = record {
  takes = λ b rest h. >>=-ok p f (look b rest h) ∙ q.takes b rest h;
}
