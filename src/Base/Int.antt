-- ===== src/Base/Int.antt =====
-- Signed integers over the native numbers, and the casts between machine words and integers.
use Prim.Native.Nat.{ℕ, ◌-◌, ◌*◌, ◌%◌, ◌^◌, ◌<◌}
use mathlib.Core.Bool.{Bool, true, false}
use aerospike_client_rust.Base.Tests.{ltb, leb, if◌then◌else◌}

-- `negsuc n` is -(n + 1).
pub data ℤ : Type 0 where
  pos : ℕ → ℤ
  negsuc : ℕ → ℤ

abbrev pub ltb_ℤ : ℤ → ℤ → Bool
ltb_ℤ (pos a) (pos b) = ltb a b
ltb_ℤ (pos a) (negsuc b) = false
ltb_ℤ (negsuc a) (pos b) = true
ltb_ℤ (negsuc a) (negsuc b) = ltb b a

abbrev pub leb_ℤ : ℤ → ℤ → Bool
leb_ℤ (pos a) (pos b) = leb a b
leb_ℤ (pos a) (negsuc b) = false
leb_ℤ (negsuc a) (pos b) = true
leb_ℤ (negsuc a) (negsuc b) = leb b a

-- `z as u8` and the like: the low bits of the two's complement, for a modulus 2 ^ w.
abbrev pub as_unsigned : ℕ → ℤ → ℕ
as_unsigned m (pos n) = n % m
as_unsigned m (negsuc n) = m - 1 - n % m

-- `u as i8` and the like, for the half 2 ^ (w - 1) of the modulus.
abbrev pub as_signed : ℕ → ℕ → ℤ
as_signed half u = if ltb u half then pos u else negsuc (2 * half - 1 - u)

-- The integers of a signed type with that half.
abbrev pub InSigned : ℕ → ℤ → Type 0
InSigned half (pos n) = n < half
InSigned half (negsuc n) = n < half

abbrev pub IsI64 : ℤ → Type 0
IsI64 = InSigned (2 ^ 63)

-- a - b, as an integer.
abbrev pub sub_ℕ : ℕ → ℕ → ℤ
sub_ℕ a b = if leb b a then pos (a - b) else negsuc (b - a - 1)

-- `n as i16` and `n as i32`
abbrev pub as_i16 : ℕ → ℤ
as_i16 n = as_signed (2 ^ 15) (n % 2 ^ 16)

abbrev pub as_i32 : ℕ → ℤ
as_i32 n = as_signed (2 ^ 31) (n % 2 ^ 32)

-- `n as u8`
abbrev pub byte : ℕ → ℕ
byte n = n % 2 ^ 8
