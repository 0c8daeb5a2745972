-- ===== src/Msgpack/Pack.antt =====
-- The shape of every packer of msgpack/encoder.rs: `buf: &mut Option<&mut Buffer>` in, the number
-- of bytes out. With `None` nothing is written and the bytes are only counted.
use aerospike_client_rust.Base.{
  ℕ, ◌+◌, ◌≡◌, refl, sym, ap, ap₂, ◌∙◌, Option, none, some, List, [], ◌++◌, length, length-append,
}
use mathlib.Core.Path.{subst}
use aerospike_client_rust.Outcome.{State, Outcome, ok, err, panic, exhausted, pure, ◌>>=◌, >>=-ok}
use aerospike_client_rust.Buffer.{Buffer, M, Fits, append}
use aerospike_client_rust.Buffer.Building.{
  Writes, append-nil_lem, append-append, Fits-front, Fits-append,
}

abbrev pub Pack : Type 0
Pack = State (Option Buffer) ℕ

-- `if let Some(ref mut buf) = *buf { m }` and then `Ok(n)`.
unfoldable pub emit : {A : Type 0} → M A → ℕ → Pack
emit m n none = ok (n, none)
emit m n (some b) = elim (m b) [
  | ok (a, b') ↦ ok (n, some b')
  | err e ↦ err e
  | panic ↦ panic
  | exhausted ↦ exhausted
]

-- `size += p?; size += q?;`
infixr 64 ◌+?◌
unfoldable pub ◌+?◌ : Pack → Pack → Pack
p +? q = do m ← p; n ← q; pure (m + n)

-- `p(&mut None)`
unfoldable pub dry_run : Pack → Outcome ℕ
dry_run p = elim (p none) [
  | ok (n, b) ↦ ok n
  | err e ↦ err e
  | panic ↦ panic
  | exhausted ↦ exhausted
]

-- `p(&mut Some(buffer))`; a packer gives back the reference that it was given.
unfoldable pub wet_run : Pack → M ℕ
wet_run p b = elim (p (some b)) [
  | ok (n, none) ↦ ok (n, b)
  | ok (n, some b') ↦ ok (n, b')
  | err e ↦ err e
  | panic ↦ panic
  | exhausted ↦ exhausted
]

-- Both runs of a packer agree: the first counts the bytes `bs`, and the second writes them.
pub record Packs (p : Pack) (bs : List ℕ) : Type 0 where
  pub dry : p none ≡ ok (length bs, none)
  pub wet : (b : Buffer) → Fits b (length bs) → p (some b) ≡ ok (length bs, some (append b bs))

pub Packs-eq : {p : Pack} {bs cs : List ℕ} → Packs p bs → bs ≡ cs → Packs p cs
Packs-eq {p} h e = subst (λ t. Packs p t) e h

pub Packs-pure : Packs (pure 0) []
Packs-pure = record { dry = refl; wet = λ b h. ap (λ c. ok (0, some c)) (sym (append-nil_lem b)) }

pub Packs-emit :
    {A : Type 0} {m : M A} {r : A} {bs : List ℕ} (n : ℕ)
    → Writes m r bs
    → length bs ≡ n
    → Packs (emit m n) bs
unfolding emit
Packs-emit n w e = record { dry = rw e refl; wet = λ b h. rw (w.runs b h, emit, e) refl }

+?-ok :
    (p q : Pack) {s t u : Option Buffer} {m n : ℕ}
    → p s ≡ ok (m, t)
    → q t ≡ ok (n, u)
    → (p +? q) s ≡ ok (m + n, u)
unfolding ◌+?◌
+?-ok p q {m = m} d e = >>=-ok p _ d ∙ >>=-ok q (λ n. pure (m + n)) e

pub Packs-+? : {p q : Pack} {bs cs : List ℕ} → Packs p bs → Packs q cs → Packs (p +? q) (bs ++ cs)
Packs-+? {p} {q} {bs} {cs} g h = record {
  dry = rw (length-append bs cs) (+?-ok p q g.dry h.dry);
  wet = λ b k.
      +?-ok p q (g.wet b (Fits-front b bs cs k)) (h.wet (append b bs) (Fits-append b bs cs k))
      ∙ ap₂ (λ n c. ok (n, some c)) (sym (length-append bs cs)) (append-append b bs cs);
}

pub dry_run-Packs : {p : Pack} {bs : List ℕ} → Packs p bs → dry_run p ≡ ok (length bs)
unfolding dry_run
dry_run-Packs h = rw (h.dry, dry_run)

pub Writes-wet_run : {p : Pack} {bs : List ℕ} → Packs p bs → Writes (wet_run p) (length bs) bs
unfolding wet_run
Writes-wet_run h = record { runs = λ b k. rw (h.wet b k, wet_run) refl }
