-- ===== src/Commands/Built/Frames.antt =====
-- The frame of a message: the resizing between the two passes, the header, the fields and
-- operations behind it, and `end`, which puts the size before them.
use aerospike_client_rust.Base.{
  ℕ, [], ◌+◌, ◌≤◌, ◌≡◌, refl, sym, ap, ◌∙◌, true, false, List, ◌++◌, length, length-append,
  overwrite, length-overwrite, overwrite-append, overwrite-splice, split_at, append-nil, ltb, arith,
  Bool-cases, inl, inr, if◌then◌else◌,
}
use mathlib.Core.Path.{subst}
use aerospike_client_rust.Outcome.{
  Outcome, ok, err, ◌>>=◌, ◌>>◌, >>=-ok, >>-ok, >>-err, invalid_buffer_size,
}
use aerospike_client_rust.Buffer.{Buffer, M, Fits, append}
use aerospike_client_rust.Buffer.Endian.{Endian}
use aerospike_client_rust.Buffer.Reads.{advance}
use aerospike_client_rust.Buffer.Sizing.{
  msg_total_header_size, max_buffer_size, begin, resize, resize_buffer, size_buffer, size_word, end,
}
use aerospike_client_rust.Buffer.Bounded.{length-resize}
use aerospike_client_rust.Buffer.Building.{append-nil_lem, append-append, Fits-front, Fits-append}
use aerospike_client_rust.Buffer.Sealed.{end_lem}
use aerospike_client_rust.Commands.Built.Passes.{Estimates, Sends, Heads, IsShort}

-- Three runs that fill a list from its start replace all of it.
overwrite-whole :
    (w head body d : List ℕ)
    → length w ≡ 8
    → length head ≡ 22
    → length d ≡ 30 + length body
    → overwrite (overwrite (overwrite d 8 head) 30 body) 0 w ≡ w ++ (head ++ body)
overwrite-whole w head body d lw lh ld =
    let (front, back, e, l) = split_at 8 d (omega arith) in
    let behind : 30 ≡ 8 + length head = omega arith in
    let short : length back ≡ length (head ++ body) =
      omega (arith, length-append front back, length-append head body, ap length e) in
    let same : length front ≡ length w = omega arith in
    ap (λ k. overwrite (overwrite (overwrite d 8 head) k body) 0 w) behind
    ∙ ap (λ x. overwrite x 0 w) (overwrite-append head body d 8)
    ∙ ap (λ x. overwrite (overwrite x 8 (head ++ body)) 0 w)
        (e ∙ ap (λ x. front ++ x) (sym (append-nil back)))
    ∙ ap (λ k. overwrite (overwrite (front ++ (back ++ [])) k (head ++ body)) 0 w) (sym l)
    ∙ ap (λ x. overwrite x 0 w) (overwrite-splice front back (head ++ body) [] short)
    ∙ overwrite-splice [] front w ((head ++ body) ++ []) same
    ∙ ap (λ x. w ++ x) (append-nil (head ++ body))

module _ ⦃endian : Endian⦄ where
  open endian use {be64}

  -- The bytes of a message with this header and this body.
  unfoldable pub message : List ℕ → List ℕ → List ℕ
  message head body = be64 (size_word (30 + length body)) ++ (head ++ body)

  -- What a command makes of the buffer `b`: the message, or the error that it is too long.
  unfoldable pub built : Buffer → List ℕ → List ℕ → Outcome (Unit {0} × Buffer)
  built b head body =
      if ltb max_buffer_size (30 + length body)
      then err (invalid_buffer_size (30 + length body))
      else ok (tt, record b { data_buffer = message head body; data_offset = 8 })

  -- `k` writes `bs` where there is room for them and then does what `t` does.
  pub record FinishesBy (t k : M (Unit {0})) (bs : List ℕ) : Type 0 where
    pub finishes :
        (b : Buffer)
        → b.data_offset + length bs ≤ length b.data_buffer
        → IsShort bs
        → k b ≡ t (append b bs)

  abbrev pub Finishes : M (Unit {0}) → List ℕ → Type 0
  Finishes k bs = FinishesBy end k bs

  Finishes-end : {t : M (Unit {0})} → FinishesBy t t []
  Finishes-end {t = t} = record { finishes = λ b h short. ap t (sym (append-nil_lem b)) }

  pub Finishes->> :
      {A : Type 0} {m : M A} {t k : M (Unit {0})} {r : A} {bs cs : List ℕ}
      → Sends m r bs
      → FinishesBy t k cs
      → FinishesBy t (m >> k) (bs ++ cs)
  Finishes->> {m = m} {t = t} {k = k} {bs = bs} {cs = cs} p q = record {
    finishes = λ b h short.
        >>-ok m k ((p.writes (omega (arith, length-append bs cs))).runs b (Fits-front b bs cs h))
        ∙ q.finishes (append b bs) (Fits-append b bs cs h) (omega (arith, length-append bs cs))
        ∙ ap t (append-append b bs cs);
  }

  pub Finishes-last :
      {A : Type 0} {m : M A} {t : M (Unit {0})} {r : A} {bs : List ℕ}
      → Sends m r bs
      → FinishesBy t (m >> t) bs
  Finishes-last {m = m} {t = t} {bs = bs} p =
      subst (λ x. FinishesBy t (m >> t) x) (append-nil bs) (Finishes->> p Finishes-end)

  -- The same for the body of a message, which starts behind the header.
  pub record FinishesBody (k : M (Unit {0})) (bs : List ℕ) : Type 0 where
    pub finishes_body :
        (b : Buffer)
        → b.data_offset ≡ msg_total_header_size
        → b.data_offset + length bs ≤ length b.data_buffer
        → IsShort bs
        → k b ≡ end (append b bs)

  -- The part `m` of a body writes `bs` where the offset is `o`.
  pub record SendsAt (o : ℕ) (m : M (Unit {0})) (bs : List ℕ) : Type 0 where
    pub writes_at :
        o + length bs ≤ msg_total_header_size + max_buffer_size
        → (b : Buffer) → b.data_offset ≡ o
        → Fits b (length bs)
        → m b ≡ ok (tt, append b bs)

  pub FinishesBody-at :
      {A : Type 0} {m : M A} {n : M (Unit {0})} {r : A} {bs cs : List ℕ}
      → Sends m r bs
      → SendsAt (msg_total_header_size + length bs) n cs
      → FinishesBody (m >> (n >> end)) (bs ++ cs)
  unfolding append
  FinishesBody-at {m = m} {n = n} {bs = bs} {cs = cs} p q = record {
    finishes_body = λ b at h short.
        >>-ok m (n >> end)
          ((p.writes (omega (arith, length-append bs cs))).runs b (Fits-front b bs cs h))
        ∙ >>-ok n end (
            q.writes_at (omega (arith, length-append bs cs)) (append b bs)
              (ap (λ o. o + length bs) at) (Fits-append b bs cs h))
        ∙ ap end (append-append b bs cs);
  }

  -- From the offset `n` on, `k` sizes, resizes and writes this message.
  pub record Builds (k : M (Unit {0})) (n : ℕ) (head body : List ℕ) : Type 0 where
    pub builds : (b : Buffer) → b.data_offset ≡ n → k b ≡ built b head body

  sized :
      {m j : M (Unit {0})} {head body : List ℕ}
      → Heads m head
      → FinishesBody j body
      → (b : Buffer) → IsShort body
      → 30 + length body ≤ max_buffer_size
      → length b.data_buffer ≡ 30 + length body
      → (m >> j) b ≡ ok (tt, record b { data_buffer = message head body; data_offset = 8 })
  unfolding message append
  sized {m = m} {j = j} {head = head} {body = body} p q b short bound full =
      let d : List ℕ = overwrite b.data_buffer 8 head in
      let c : Buffer = record b { data_buffer = d; data_offset = 30 } in
      let ld : length d ≡ 30 + length body = length-overwrite head b.data_buffer 8 ∙ full in
      let room : 8 ≤ length (overwrite d 30 body) = omega (arith, ld, length-overwrite body d 30) in
      >>-ok m j (p.heads b (omega arith))
      ∙ q.finishes_body c refl (omega (arith, ld)) short
      ∙ end_lem (append c body) (omega arith) (omega arith) room
      ∙ ap (λ x. ok (tt, record b { data_buffer = x; data_offset = 8 }))
          (overwrite-whole (be64 (size_word (30 + length body))) head body b.data_buffer
            (endian.length-be64 (size_word (30 + length body))) p.length_head full)

  refused :
      (b : Buffer) (n : ℕ)
      → b.data_offset ≡ n
      → ltb max_buffer_size n ≡ true
      → size_buffer b ≡ err (invalid_buffer_size n)
  unfolding size_buffer resize_buffer
  refused b n at h = rw (at, h) refl

  resized :
      (b : Buffer) (n : ℕ)
      → b.data_offset ≡ n
      → ltb max_buffer_size n ≡ false
      → size_buffer b ≡ ok (tt, record b { data_buffer = resize n b.data_buffer })
  unfolding size_buffer resize_buffer
  resized b n at h = rw (at, h) refl

  pub Builds-body :
      {m j : M (Unit {0})} {n : ℕ} {head body : List ℕ}
      → Heads m head
      → FinishesBody j body
      → n ≡ 30 + length body
      → Builds (size_buffer >> (m >> j)) n head body
  unfolding built
  Builds-body {m = m} {j = j} {head = head} {body = body} p q e = record {
    builds = λ b at.
        let n : ℕ = 30 + length body in
        elim (Bool-cases (ltb max_buffer_size n)) [
          | inl h ↦ >>-err size_buffer (m >> j) (refused b n (at ∙ e) h) ∙ rw h refl
          | inr h ↦
              let le : n ≤ max_buffer_size = ground arith in
              >>-ok size_buffer (m >> j) (resized b n (at ∙ e) h)
              ∙ sized p q (record b { data_buffer = resize n b.data_buffer }) (omega arith) le
                  (length-resize n b.data_buffer)
              ∙ rw h refl
        ];
  }

  pub Builds-size :
      {m j : M (Unit {0})} {n : ℕ} {head body : List ℕ}
      → Heads m head
      → Finishes j body
      → n ≡ 30 + length body
      → Builds (size_buffer >> (m >> j)) n head body
  Builds-size p q e =
      Builds-body p (record { finishes_body = λ b at h short. q.finishes b h short }) e

  pub Builds->>= :
      {A : Type 0} {m : M A} (f : A → M (Unit {0})) {r : A} {n k : ℕ} {head body : List ℕ}
      → Estimates m r k
      → Builds (f r) (n + k) head body
      → Builds (m >>= f) n head body
  unfolding built
  Builds->>= {m = m} f {k = k} p q = record {
    builds = λ b at. >>=-ok m f (p.moves b) ∙ q.builds (advance b k) (ap (λ x. x + k) at);
  }

  pub Builds->> :
      {A : Type 0} {m : M A} {j : M (Unit {0})} {r : A} {n k : ℕ} {head body : List ℕ}
      → Estimates m r k
      → Builds j (n + k) head body
      → Builds (m >> j) n head body
  unfolding built
  Builds->> {m = m} {j = j} {k = k} p q = record {
    builds = λ b at. >>-ok m j (p.moves b) ∙ q.builds (advance b k) (ap (λ x. x + k) at);
  }

  pub Builds-begin :
      {k : M (Unit {0})} {head body : List ℕ}
      → Builds k 30 head body
      → (b : Buffer) → (begin >> k) b ≡ built b head body
  unfolding begin built
  Builds-begin {k = k} p b = >>-ok begin k refl ∙ p.builds (record b { data_offset = 30 }) refl
