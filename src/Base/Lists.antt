-- ===== src/Base/Lists.antt =====
-- Lists measured and indexed by native numbers, under the library's names, and the overwriting of
-- a run of elements in place.
use Prim.Native.Nat.{ℕ, zero, suc, ◌+◌, ◌-◌, ◌≤◌}
use mathlib.Core.Path.{◌≡◌, refl, ap, ◌∙◌}
use mathlib.Core.List.{List, [], ◌∷◌, ◌++◌}
use mathlib.Core.Option.{Option, none, some}
use native.Mathlib.Omega.{arith}

module _ {ℓ} {A : Type ℓ} where
  abbrev pub length : List A → ℕ
  length [] = 0
  length (x ∷ xs) = suc (length xs)

  abbrev pub get_elem? : List A → ℕ → Option A
  get_elem? [] i = none
  get_elem? (x ∷ xs) zero = some x
  get_elem? (x ∷ xs) (suc i) = get_elem? xs i

  -- A write out of bounds changes nothing.
  abbrev pub set : List A → ℕ → A → List A
  set [] i v = []
  set (x ∷ xs) zero v = v ∷ xs
  set (x ∷ xs) (suc i) v = x ∷ set xs i v

  abbrev pub take : ℕ → List A → List A
  take zero xs = []
  take (suc n) [] = []
  take (suc n) (x ∷ xs) = x ∷ take n xs

  abbrev pub drop : ℕ → List A → List A
  drop zero xs = xs
  drop (suc n) [] = []
  drop (suc n) (x ∷ xs) = drop n xs

  abbrev pub replicate : ℕ → A → List A
  replicate zero a = []
  replicate (suc n) a = a ∷ replicate n a

module _ {ℓ} {A : Type ℓ} where
  -- The elements from position `o` on are replaced by `bs`.
  unfoldable pub overwrite : List A → ℕ → List A → List A
  overwrite d o [] = d
  overwrite d o (b ∷ bs) = overwrite (set d o b) (suc o) bs

  pub length-append : (xs ys : List A) → length (xs ++ ys) ≡ length xs + length ys
  length-append [] ys = omega arith
  length-append (x ∷ xs) ys = omega (arith, length-append xs ys)

  pub length-set : (xs : List A) (i : ℕ) (v : A) → length (set xs i v) ≡ length xs
  length-set [] i v = refl
  length-set (x ∷ xs) zero v = refl
  length-set (x ∷ xs) (suc i) v = ap suc (length-set xs i v)

  pub length-replicate : (n : ℕ) (a : A) → length (replicate n a) ≡ n
  length-replicate zero a = refl
  length-replicate (suc n) a = ap suc (length-replicate n a)

  pub take-append : (xs ys : List A) → take (length xs) (xs ++ ys) ≡ xs
  take-append [] ys = refl
  take-append (x ∷ xs) ys = ap (◌∷◌ x) (take-append xs ys)

  pub drop-append : (xs ys : List A) → drop (length xs) (xs ++ ys) ≡ ys
  drop-append [] ys = refl
  drop-append (x ∷ xs) ys = drop-append xs ys

  drop-nil : (n : ℕ) → ◌≡◌ {A = List A} [] (drop n [])
  drop-nil zero = refl
  drop-nil (suc n) = refl

  pub drop-drop : (m n : ℕ) (xs : List A) → drop n (drop m xs) ≡ drop (m + n) xs
  drop-drop zero n xs = let e : n ≡ zero + n = omega arith in ap (λ k. drop k xs) e
  drop-drop (suc m) zero [] = drop-nil (suc m + zero)
  drop-drop (suc m) (suc n) [] = drop-nil (suc m + suc n)
  drop-drop (suc m) n (x ∷ xs) =
      let e : suc (m + n) ≡ suc m + n = omega arith in
      drop-drop m n xs ∙ ap (λ k. drop k (x ∷ xs)) e

  pub length-drop : (n : ℕ) (xs : List A) → length (drop n xs) ≡ length xs - n
  length-drop zero xs = omega arith
  length-drop (suc n) [] = omega arith
  length-drop (suc n) (x ∷ xs) = omega (arith, length-drop n xs)

  pub get_elem?-drop : (n : ℕ) (xs : List A) → get_elem? (drop n xs) 0 ≡ get_elem? xs n
  get_elem?-drop zero xs = refl
  get_elem?-drop (suc n) [] = refl
  get_elem?-drop (suc n) (x ∷ xs) = get_elem?-drop n xs

module _ {ℓ} {A : Type ℓ} where
  pub length-overwrite : (bs d : List A) (o : ℕ) → length (overwrite d o bs) ≡ length d
  unfolding overwrite
  length-overwrite [] d o = refl
  length-overwrite (b ∷ bs) d o = length-overwrite bs (set d o b) (suc o) ∙ length-set d o b

  -- Two runs one behind the other are one run.
  pub overwrite-append :
      (bs cs d : List A) (o : ℕ)
      → overwrite (overwrite d o bs) (o + length bs) cs ≡ overwrite d o (bs ++ cs)
  unfolding overwrite
  overwrite-append [] cs d o = ap (λ k. overwrite d k cs) (omega arith)
  overwrite-append (b ∷ bs) cs d o =
      ap (λ k. overwrite (overwrite (set d o b) (suc o) bs) k cs) (omega arith)
      ∙ overwrite-append bs cs (set d o b) (suc o)

  overwrite-cons :
      (x : A) (bs d : List A) (o : ℕ) → overwrite (x ∷ d) (suc o) bs ≡ x ∷ overwrite d o bs
  unfolding overwrite
  overwrite-cons x [] d o = refl
  overwrite-cons x (b ∷ bs) d o = overwrite-cons x bs (set d o b) (suc o)

  -- A run written over one of the same length leaves what stands on both sides.
  pub overwrite-splice :
      (front old new back : List A)
      → length old ≡ length new
      → overwrite (front ++ (old ++ back)) (length front) new ≡ front ++ (new ++ back)
  unfolding overwrite
  overwrite-splice [] [] [] back h = refl
  overwrite-splice [] [] (n ∷ new) back h = absurd (omega arith)
  overwrite-splice [] (o ∷ old) [] back h = absurd (omega arith)
  overwrite-splice [] (o ∷ old) (n ∷ new) back h =
      overwrite-cons n new (old ++ back) 0
      ∙ ap (◌∷◌ n) (overwrite-splice [] old new back (omega arith))
  overwrite-splice (x ∷ front) old new back h =
      overwrite-cons x new (front ++ (old ++ back)) (length front)
      ∙ ap (◌∷◌ x) (overwrite-splice front old new back h)

  -- A list is cut at any position within it.
  pub split_at :
      (n : ℕ) (xs : List A)
      → n ≤ length xs
      → (front : List A) × (back : List A) × (xs ≡ front ++ back) × (length front ≡ n)
  split_at zero xs h = ([], xs, refl, refl)
  split_at (suc n) [] h = absurd (omega arith)
  split_at (suc n) (x ∷ xs) h =
      let (front, back, e, l) = split_at n xs (omega arith) in
      (x ∷ front, back, ap (◌∷◌ x) e, ap suc l)

abbrev pub from_option {ℓ} : {A : Type ℓ} → Option A → List A
from_option none = []
from_option (some a) = a ∷ []
