-- ===== src/Base/Bits.antt =====
-- Masks as arithmetic. A mask over a small range is a table checked by evaluation; one over a
-- whole word goes by the recursion on binary digits that the native operations stand for.
use Prim.Native.Nat.{
  ℕ, zero, suc, ◌+◌, ◌-◌, ◌*◌, ◌/◌, ◌%◌, ◌^◌, ◌≤◌, ◌<◌, min, max, bit_and, bit_or, digits,
  bit_and-bitwise, bit_or-bitwise,
}
use mathlib.Core.Path.{◌≡◌, refl, sym, ap, subst, ◌∙◌}
use mathlib.Core.Logic.{inl, inr}
use mathlib.Core.Bool.{Bool, true, ◌&&◌}
use native.Mathlib.Omega.{arith}
use native.Mathlib.Nat.{pow-suc, div-add-mod, mod-lt, mod-eq_of_lt, add-mul-mod_self_left}
use aerospike_client_rust.Base.Tests.{◌==◌, ==_iff, ltb, and_parts, Bool-cases}

-- Two functions agree on every number below a bound, found by evaluation.
unfoldable pub same_below : (ℕ → ℕ) → (ℕ → ℕ) → ℕ → Bool
same_below f g zero = true
same_below f g (suc last) = same_below f g last && f last == g last

pub agree_below : (f g : ℕ → ℕ) (bound v : ℕ) → same_below f g bound ≡ true → v < bound → f v ≡ g v
unfolding same_below
agree_below f g zero v table below = absurd (omega arith)
agree_below f g (suc last) v table below =
    let (before, here) = and_parts _ _ table in
    elim (Bool-cases (ltb v last)) [
      | inl lower ↦ agree_below f g last v before (ground arith)
      | inr other ↦
          let at : last ≡ v = ground arith in subst (λ u. f u ≡ g u) at ((==_iff _ _).0 here)
    ]

no_digits : (z : ℕ → ℕ) (f : ℕ → ℕ → ℕ) (fuel y : ℕ) → digits z f fuel zero y ≡ z y
no_digits z f zero y = refl
no_digits z f (suc fuel) y = refl

-- One step of fuel more changes nothing where there was enough.
digits-suc :
    (z : ℕ → ℕ) (f : ℕ → ℕ → ℕ) (fuel x y : ℕ)
    → x ≤ fuel
    → digits z f (suc fuel) x y ≡ digits z f fuel x y
digits-suc z f fuel zero y le = no_digits z f (suc fuel) y ∙ sym (no_digits z f fuel y)
digits-suc z f zero (suc x) y le = absurd (omega arith)
digits-suc z f (suc fuel) (suc x) y le =
    ap (λ t. t * 2 + f (suc x % 2) (y % 2)) (digits-suc z f fuel (suc x / 2) (y / 2) (omega arith))

digits-more :
    (z : ℕ → ℕ) (f : ℕ → ℕ → ℕ) (extra x y : ℕ) → digits z f (extra + x) x y ≡ digits z f x x y
digits-more z f zero x y = ap (λ t. digits z f t x y) (omega arith)
digits-more z f (suc extra) x y =
    let more : suc extra + x ≡ suc (extra + x) = omega arith in
    ap (λ t. digits z f t x y) more
    ∙ digits-suc z f (extra + x) x y (omega arith)
    ∙ digits-more z f extra x y

digits-enough :
    (z : ℕ → ℕ) (f : ℕ → ℕ → ℕ) (fuel x y : ℕ) → x ≤ fuel → digits z f fuel x y ≡ digits z f x x y
digits-enough z f fuel x y le =
    let spare : fuel ≡ (fuel - x) + x = omega arith in
    ap (λ t. digits z f t x y) spare ∙ digits-more z f (fuel - x) x y

or_digits-half :
    (a b : ℕ)
    → digits (λ y. y) max a a b
      ≡ digits (λ y. y) max (a / 2) (a / 2) (b / 2) * 2 + max (a % 2) (b % 2)
or_digits-half zero b = omega arith
or_digits-half (suc a) b =
    omega (arith, digits-enough (λ y. y) max a (suc a / 2) (b / 2) (omega arith))

and_digits-half :
    (a b : ℕ)
    → digits (λ y. 0) min a a b
      ≡ digits (λ y. 0) min (a / 2) (a / 2) (b / 2) * 2 + min (a % 2) (b % 2)
and_digits-half zero b = omega arith
and_digits-half (suc a) b =
    omega (arith, digits-enough (λ y. 0) min a (suc a / 2) (b / 2) (omega arith))

bit_or-half : (a b : ℕ) → bit_or a b ≡ bit_or (a / 2) (b / 2) * 2 + max (a % 2) (b % 2)
bit_or-half a b = simp bit_or-bitwise (or_digits-half a b)

bit_and-half : (a b : ℕ) → bit_and a b ≡ bit_and (a / 2) (b / 2) * 2 + min (a % 2) (b % 2)
bit_and-half a b = simp bit_and-bitwise (and_digits-half a b)

-- An `or` with a shifted word leaves the bits below the shift.
pub bit_or-shifted :
    (k a d c : ℕ) → a < 2 ^ k → bit_or (a + d * 2 ^ k) (c * 2 ^ k) ≡ a + bit_or d c * 2 ^ k
bit_or-shifted zero zero d c h =
    let p : 0 + d * 2 ^ 0 ≡ d = omega arith in
    let q : c * 2 ^ 0 ≡ c = omega arith in rw (p, q) (omega arith)
bit_or-shifted zero (suc a) d c h = absurd (omega arith)
bit_or-shifted (suc k) a d c h =
    let p : 2 ^ suc k ≡ 2 ^ k * 2 = pow-suc 2 k in
    let q : c * 2 ^ suc k / 2 ≡ c * 2 ^ k = rw p (omega arith) in
    let r : c * 2 ^ suc k % 2 ≡ 0 = rw p (omega arith) in
    let s : (a + d * 2 ^ suc k) / 2 ≡ a / 2 + d * 2 ^ k = rw p (omega arith) in
    let t : (a + d * 2 ^ suc k) % 2 ≡ a % 2 = rw p (omega arith) in
    let ih : bit_or (a / 2 + d * 2 ^ k) (c * 2 ^ k) ≡ a / 2 + bit_or d c * 2 ^ k =
      bit_or-shifted k (a / 2) d c (omega (arith, p)) in
    rw (bit_or-half (a + d * 2 ^ suc k) (c * 2 ^ suc k), q, r, s, t, ih)
      (omega (arith, ap (λ x. bit_or d c * x) p))

-- No bit of any number is in 0, digit by digit.
empty_mask : (bound v : ℕ) → v < bound → bit_and v 0 ≡ 0
empty_mask zero v below = absurd (omega arith)
empty_mask (suc bound) v below = elim (Bool-cases (v == 0)) [
  | inl none ↦ let e : v ≡ 0 = (==_iff _ _).0 none in rw e (simp bit_and-bitwise refl)
  | inr some ↦
      let half : v / 2 < bound = ground (arith, ==_iff v 0) in
      omega (arith, bit_and-half v 0, empty_mask bound (v / 2) half)
]

bit_and-zero : (v : ℕ) → bit_and v 0 ≡ 0
bit_and-zero v = empty_mask (suc v) v (omega arith)

two_pow-pos : (k : ℕ) → 0 < 2 ^ k
two_pow-pos zero = omega arith
two_pow-pos (suc k) = omega (arith, two_pow-pos k, pow-suc 2 k)

mod-double : (m a : ℕ) → 0 < m → a % (m * 2) ≡ a / 2 % m * 2 + a % 2
mod-double m a h =
    let t : ℕ = a / 2 % m * 2 + a % 2 in
    let e : a ≡ t + m * 2 * (a / 2 / m) = omega (arith, div-add-mod (a / 2) m) in
    let small : t < m * 2 = omega (arith, mod-lt (a / 2) h) in
    ap (λ x. x % (m * 2)) e ∙ add-mul-mod_self_left t (m * 2) (a / 2 / m) ∙ mod-eq_of_lt small

-- A mask of the `k` lowest bits is a remainder.
pub bit_and-mask : (k a : ℕ) → bit_and a (2 ^ k - 1) ≡ a % 2 ^ k
bit_and-mask zero a = bit_and-zero a ∙ omega arith
bit_and-mask (suc k) a =
    let p : 2 ^ suc k ≡ 2 ^ k * 2 = pow-suc 2 k in
    let pos : 0 < 2 ^ k = two_pow-pos k in
    let q : (2 ^ suc k - 1) / 2 ≡ 2 ^ k - 1 = omega (arith, p) in
    let r : (2 ^ suc k - 1) % 2 ≡ 1 = omega (arith, p) in
    rw (bit_and-half a (2 ^ suc k - 1), q, r, bit_and-mask k (a / 2))
      (omega (arith, mod-double (2 ^ k) a pos, ap (λ t. a % t) p))
