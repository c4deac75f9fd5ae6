-- ===== src/Base/Lists.antt =====
-- Lists measured, indexed and sliced by native numbers. `take?` and `drop?` fail where a Go slice
-- expression panics.
use Prim.Native.Nat.{ℕ, zero, suc, ◌+◌}
use mathlib.Core.Path.{◌≡◌, refl, ap}
use mathlib.Core.List.{List, [], ◌∷◌, ◌++◌}
use mathlib.Core.Option.{Option, none, some}
use native.Mathlib.Omega.{arith}

module _ {ℓ} {A : Type ℓ} where
  abbrev pub length : List A → ℕ
  length [] = 0
  length (x ∷ xs) = suc (length xs)

  abbrev pub get_elem? : List A → ℕ → Option A
  get_elem? [] i = none
  get_elem? (x ∷ xs) zero = some x
  get_elem? (x ∷ xs) (suc i) = get_elem? xs i

  abbrev pub drop? : ℕ → List A → Option (List A)
  drop? zero xs = some xs
  drop? (suc n) [] = none
  drop? (suc n) (x ∷ xs) = drop? n xs

  abbrev pub cons? : A → Option (List A) → Option (List A)
  cons? x none = none
  cons? x (some xs) = some (x ∷ xs)

  abbrev pub take? : ℕ → List A → Option (List A)
  take? zero xs = some []
  take? (suc n) [] = none
  take? (suc n) (x ∷ xs) = cons? x (take? n xs)

  abbrev pub All {κ} : (A → Type κ) → List A → Type κ
  All P [] = Unit {κ}
  All P (x ∷ xs) = P x × All P xs

  pub length-append : (xs ys : List A) → length (xs ++ ys) ≡ length xs + length ys
  length-append [] ys = omega arith
  length-append (x ∷ xs) ys = omega (arith, length-append xs ys)

module _ {ℓ} {A : Type ℓ} where
  pub get_elem?-append :
      (xs ys : List A) (i k : ℕ) → i ≡ length xs + k → get_elem? (xs ++ ys) i ≡ get_elem? ys k
  get_elem?-append [] ys i k e = let e' : i ≡ k = omega arith in rw e'
  get_elem?-append (x ∷ xs) ys zero k e = absurd (omega arith)
  get_elem?-append (x ∷ xs) ys (suc i) k e = get_elem?-append xs ys i k (omega arith)

  pub drop?-append :
      (xs ys : List A) (i k : ℕ) → i ≡ length xs + k → drop? i (xs ++ ys) ≡ drop? k ys
  drop?-append [] ys i k e = let e' : i ≡ k = omega arith in rw e'
  drop?-append (x ∷ xs) ys zero k e = absurd (omega arith)
  drop?-append (x ∷ xs) ys (suc i) k e = drop?-append xs ys i k (omega arith)

  pub take?-append : (xs ys : List A) (i : ℕ) → i ≡ length xs → take? i (xs ++ ys) ≡ some xs
  take?-append [] ys zero e = refl
  take?-append [] ys (suc i) e = absurd (omega arith)
  take?-append (x ∷ xs) ys zero e = absurd (omega arith)
  take?-append (x ∷ xs) ys (suc i) e = ap (cons? x) (take?-append xs ys i (omega arith))
