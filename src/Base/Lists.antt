-- ===== src/Base/Lists.antt =====
-- Lists measured by native numbers, under the library's names.
use Prim.Native.Nat.{ℕ, suc, ◌+◌}
use mathlib.Core.Path.{◌≡◌}
use mathlib.Core.List.{List, [], ◌∷◌, ◌++◌}
use native.Mathlib.Omega.{arith}

module _ {ℓ} {A : Type ℓ} where
  abbrev pub length : List A → ℕ
  length [] = 0
  length (x ∷ xs) = suc (length xs)

  pub length-append : (xs ys : List A) → length (xs ++ ys) ≡ length xs + length ys
  length-append [] ys = omega arith
  length-append (x ∷ xs) ys = omega (arith, length-append xs ys)

-- A predicate on every entry, by recursion.
abbrev pub All {ℓ κ} : {A : Type ℓ} → (A → Type κ) → List A → Type κ
All Q [] = Unit
All Q (y ∷ ys) = Q y × All Q ys

pub All-append {ℓ κ} :
    {A : Type ℓ} (Q : A → Type κ) (front back : List A)
    → All Q front
    → All Q back
    → All Q (front ++ back)
All-append Q [] back f b = b
All-append Q (y ∷ front) back f b = (f.0, All-append Q front back f.1 b)

pub All-map {ℓ κ μ} :
    {A : Type ℓ} (P : A → Type κ) (Q : A → Type μ) (ys : List A)
    → ((a : A) → P a → Q a)
    → All P ys
    → All Q ys
All-map P Q [] f h = tt
All-map P Q (y ∷ ys) f h = (f y h.0, All-map P Q ys f h.1)
