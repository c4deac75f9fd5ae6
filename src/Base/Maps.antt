-- ===== src/Base/Maps.antt =====
-- A Go map as a function: a missing key reads as the zero value that the function gives.
use Prim.Native.Nat.{ℕ}
use mathlib.Core.Path.{◌≡◌, refl}
use mathlib.Core.Logic.{◌≢◌}
use mathlib.Core.Bool.{Bool, true, false}
use mathlib.Core.List.{List, [], ◌∷◌}
use native.Mathlib.Omega.{arith}
use chf.Base.Tests.{◌==◌, if◌then◌else◌}

unfoldable pub update {ℓ} : {V : Type ℓ} → (ℕ → V) → ℕ → V → ℕ → V
update f k v j = if k == j then v else f j

module _ {ℓ} {V : Type ℓ} where
  pub update_same : (f : ℕ → V) (k : ℕ) (v : V) → update f k v k ≡ v
  unfolding update
  update_same f k v = ground arith

  pub update_other : (f : ℕ → V) (k j : ℕ) (v : V) → k ≢ j → update f k v j ≡ f j
  unfolding update
  update_other f k j v h = ground arith

-- Equality of texts.
unfoldable pub text_eq : List ℕ → List ℕ → Bool
text_eq [] [] = true
text_eq [] (d ∷ t) = false
text_eq (c ∷ s) [] = false
text_eq (c ∷ s) (d ∷ t) = let rest = text_eq s t in if c == d then rest else false

pub text_eq→eq : (s t : List ℕ) → text_eq s t ≡ true → s ≡ t
unfolding text_eq
text_eq→eq [] [] h = refl
text_eq→eq [] (d ∷ t) h = cc
text_eq→eq (c ∷ s) [] h = cc
text_eq→eq (c ∷ s) (d ∷ t) h = ground (arith, text_eq→eq s t)

pub text_eq_refl : (s : List ℕ) → text_eq s s ≡ true
unfolding text_eq
text_eq_refl [] = refl
text_eq_refl (c ∷ s) = ground (arith, text_eq_refl s)
