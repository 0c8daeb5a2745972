-- ===== src/Commands/Built/Passes.antt =====
-- The two passes of a command: `Estimates` for the first, `Sends` for the second on messages that
-- are not longer than the largest buffer, and `Builds` for both with the resizing between them.
use aerospike_client_rust.Base.{
  ℕ, ◌+◌, ◌≤◌, ◌≡◌, refl, ap, ◌∙◌, List, [], ◌++◌, length, length-append, overwrite, arith,
}
use mathlib.Core.Path.{subst}
use aerospike_client_rust.Outcome.{Outcome, ok, pure, ◌>>=◌, ◌>>◌, >>=-ok, >>-ok, lift}
use aerospike_client_rust.Buffer.{Buffer, M}
use aerospike_client_rust.Buffer.Reads.{advance}
use aerospike_client_rust.Buffer.Sizing.{max_buffer_size, msg_total_header_size}
use aerospike_client_rust.Buffer.Building
use aerospike_client_rust.Buffer.Building.{Writes}
use aerospike_client_rust.Commands.Sizes.{grow}

-- The first pass: `m` returns `r` and moves the offset by `n`.
pub record Estimates {A : Type 0} (m : M A) (r : A) (n : ℕ) : Type 0 where
  pub moves : (b : Buffer) → m b ≡ ok (r, advance b n)

advance-advance : (b : Buffer) (m n : ℕ) → advance (advance b m) n ≡ advance b (m + n)
advance-advance b m n =
    let e : b.data_offset + m + n ≡ b.data_offset + (m + n) = omega arith in
    ap (λ k. record b { data_offset = k }) e

pub Estimates-pure : {A : Type 0} (a : A) → Estimates (pure a) a 0
Estimates-pure a = record {
  moves = λ b.
      let e : b.data_offset ≡ b.data_offset + 0 = omega arith in
      ap (λ k. ok (a, record b { data_offset = k })) e;
}

pub Estimates-lift : {A : Type 0} (o : Outcome A) {a : A} → o ≡ ok a → Estimates (lift o) a 0
unfolding lift
Estimates-lift o {a} e = record { moves = λ b. rw (e, lift) ((Estimates-pure a).moves b) }

pub Estimates-grow : (n : ℕ) → Estimates (grow n) tt n
unfolding grow
Estimates-grow n = record { moves = λ b. refl }

pub Estimates->>= :
    {A B : Type 0} {m : M A} (f : A → M B) {r : A} {s : B} {n k : ℕ}
    → Estimates m r n
    → Estimates (f r) s k
    → Estimates (m >>= f) s (n + k)
Estimates->>= {m = m} f {s = s} {n = n} {k = k} p q = record {
  moves = λ b.
      >>=-ok m f (p.moves b) ∙ q.moves (advance b n) ∙ ap (λ c. ok (s, c)) (advance-advance b n k);
}

pub Estimates->> :
    {A B : Type 0} {m : M A} {j : M B} {r : A} {s : B} {n k : ℕ}
    → Estimates m r n
    → Estimates j s k
    → Estimates (m >> j) s (n + k)
Estimates->> {m = m} {j = j} {s = s} {n = n} {k = k} p q = record {
  moves = λ b.
      >>-ok m j (p.moves b) ∙ q.moves (advance b n) ∙ ap (λ c. ok (s, c)) (advance-advance b n k);
}

pub Estimates-eq :
    {A : Type 0} {m : M A} {r : A} {n k : ℕ} → Estimates m r n → n ≡ k → Estimates m r k
Estimates-eq {m = m} {r = r} w e = subst (λ t. Estimates m r t) e w

abbrev pub IsShort : List ℕ → Type 0
IsShort bs = length bs ≤ max_buffer_size

-- The second pass: `m` writes `bs`, as far as they fit the largest buffer.
pub record Sends {A : Type 0} (m : M A) (r : A) (bs : List ℕ) : Type 0 where
  pub writes : IsShort bs → Writes m r bs

pub Sends-Writes : {A : Type 0} {m : M A} {r : A} {bs : List ℕ} → Writes m r bs → Sends m r bs
Sends-Writes w = record { writes = λ _. w }

pub Sends-pure : {A : Type 0} (a : A) → Sends (pure a) a []
Sends-pure a = Sends-Writes (Building.Writes-pure a)

pub Sends->>= :
    {A B : Type 0} {m : M A} (f : A → M B) {r : A} {s : B} {bs cs : List ℕ}
    → Sends m r bs
    → Sends (f r) s cs
    → Sends (m >>= f) s (bs ++ cs)
Sends->>= f {bs = bs} {cs = cs} p q = record {
  writes = λ h.
      Building.Writes->>= f (p.writes (omega (arith, length-append bs cs)))
        (q.writes (omega (arith, length-append bs cs)));
}

pub Sends->> :
    {A B : Type 0} {m : M A} {k : M B} {r : A} {s : B} {bs cs : List ℕ}
    → Sends m r bs
    → Sends k s cs
    → Sends (m >> k) s (bs ++ cs)
Sends->> {bs = bs} {cs = cs} p q = record {
  writes = λ h.
      Building.Writes->> (p.writes (omega (arith, length-append bs cs)))
        (q.writes (omega (arith, length-append bs cs)));
}

pub Sends-last :
    {A B : Type 0} {m : M A} {r : A} (s : B) {bs : List ℕ} → Sends m r bs → Sends (m >> pure s) s bs
Sends-last s p = record { writes = λ h. Building.Writes-last s (p.writes h) }

pub Sends-eq :
    {A : Type 0} {m : M A} {r : A} {bs cs : List ℕ} → Sends m r bs → bs ≡ cs → Sends m r cs
Sends-eq {m = m} {r = r} w e = subst (λ t. Sends m r t) e w

-- A header is written at position 8, over 22 bytes, and leaves the offset behind them.
pub record Heads (m : M (Unit {0})) (head : List ℕ) : Type 0 where
  pub length_head : length head ≡ 22
  pub heads :
      (b : Buffer)
      → msg_total_header_size ≤ length b.data_buffer
      → m b
        ≡ ok (
          tt,
          record b {
            data_buffer = overwrite b.data_buffer 8 head;
            data_offset = msg_total_header_size;
          },
        )
