-- ===== src/Outcome.antt =====
-- errors.rs, as far as the modelled code raises it, and the result of code that may fail.
-- A panic of the source (an index out of range, an `unwrap` of `None`, `unreachable!`, an
-- arithmetic overflow under the checks of a debug build) is a value of its own.
use aerospike_client_rust.Base.{ℕ, ◌≡◌, ap, sym}
use mathlib.Core.Path.{subst}

pub data Error : Type 0 where
  invalid_buffer_size : ℕ → Error
  invalid_utf8 : Error
  unknown_blob_header : ℕ → Error
  bad_response : ℕ → Error
  invalid_argument : Error

-- `exhausted` is no result of the source: a recursion ran out of the fuel that the model gives it.
pub data Outcome {ℓ} (A : Type ℓ) : Type ℓ where
  ok : A → Outcome A
  err : Error → Outcome A
  panic : Outcome A
  exhausted : Outcome A

-- `&mut self` with a `Result`: the state goes in and comes out. The state after a failure is
-- not observed by the code that is modelled, and is dropped.
abbrev pub State : Type 0 → Type 0 → Type 0
State S A = S → Outcome (A × S)

abbrev pub pure : {S A : Type 0} → A → State S A
pure a s = ok (a, s)

infixl 5 ◌>>=◌ ◌>>◌
unfoldable pub ◌>>=◌ : {S A B : Type 0} → State S A → (A → State S B) → State S B
◌>>=◌ m f s = elim (m s) [
  | ok (a, s') ↦ f a s'
  | err e ↦ err e
  | panic ↦ panic
  | exhausted ↦ exhausted
]

unfoldable pub ◌>>◌ : {S A B : Type 0} → State S A → State S B → State S B
◌>>◌ m k s = elim (m s) [
  | ok (a, s') ↦ k s'
  | err e ↦ err e
  | panic ↦ panic
  | exhausted ↦ exhausted
]

-- A computation without state, run where there is one.
unfoldable pub lift : {S A : Type 0} → Outcome A → State S A
lift o s = elim o [ ok a ↦ ok (a, s) | err e ↦ err e | panic ↦ panic | exhausted ↦ exhausted ]

pub >>=-ok :
    {S A B : Type 0} (m : State S A) (f : A → State S B) {s t : S} {a : A}
    → m s ≡ ok (a, t)
    → (m >>= f) s ≡ f a t
unfolding ◌>>=◌
>>=-ok m f e = rw (e, ◌>>=◌)

pub >>-ok :
    {S A B : Type 0} (m : State S A) (k : State S B) {s t : S} {a : A}
    → m s ≡ ok (a, t)
    → (m >> k) s ≡ k t
unfolding ◌>>◌
>>-ok m k e = rw (e, ◌>>◌)

pub >>-err :
    {S A B : Type 0} (m : State S A) (k : State S B) {s : S} {e : Error}
    → m s ≡ err e
    → (m >> k) s ≡ err e
unfolding ◌>>◌
>>-err m k e = rw (e, ◌>>◌)

from_ok {ℓ} : {A : Type ℓ} → A → Outcome A → A
from_ok a (ok b) = b
from_ok a (err e) = a
from_ok a panic = a
from_ok a exhausted = a

pub ok-injective {ℓ} : {A : Type ℓ} {a b : A} → ok a ≡ ok b → a ≡ b
unfolding from_ok
ok-injective {a = a} e = ap (from_ok a) e

IsOk {ℓ} : {A : Type ℓ} → Outcome A → Type 0
IsOk (ok a) = Unit
IsOk _ = ⊥

pub no_panic {ℓ} : {A : Type ℓ} {a : A} → panic ≡ ok a → ⊥
unfolding IsOk
no_panic e = subst IsOk (sym e) tt
