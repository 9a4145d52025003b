-- ===== src/Base/Counts.antt =====
-- Membership and multiplicity in lists whose entries have a Boolean equality.
use Prim.Native.Nat.{ℕ, suc, ◌+◌, ◌≤◌}
use mathlib.Core.Path.{◌≡◌, refl}
use mathlib.Core.Bool.{Bool, true, false, ◌||◌}
use mathlib.Core.List.{List, [], ◌∷◌, ◌++◌}
use native.Mathlib.Omega.{arith}
use reaper.Base.Tests.{BoolEq, ◌==◌, if◌then◌else◌}
use reaper.Base.Lists.{length}

abbrev pub one : Bool → ℕ
one true = 1
one false = 0

module _ {ℓ} {A : Type ℓ} ⦃e : BoolEq A⦄ where
  abbrev pub contains : List A → A → Bool
  contains [] a = false
  contains (x ∷ xs) a = x == a || contains xs a

  abbrev pub count : A → List A → ℕ
  count a [] = 0
  count a (x ∷ xs) = one (x == a) + count a xs

  -- set.remove, or the first occurrence in a list.
  abbrev pub discard_first : A → List A → List A
  discard_first a [] = []
  discard_first a (x ∷ xs) = if x == a then xs else x ∷ discard_first a xs

  -- list(dict.fromkeys(xs)) up to order, set(xs)
  abbrev pub dedup : List A → List A
  dedup [] = []
  dedup (x ∷ xs) = if contains xs x then dedup xs else x ∷ dedup xs

  pub beq_refl : (a : A) → (a == a) ≡ true
  beq_refl a = (e.agrees a a).1 refl

  pub count-append :
      (a : A) (front back : List A) → count a (front ++ back) ≡ count a front + count a back
  count-append a [] back = omega arith
  count-append a (y ∷ front) back = omega (arith, count-append a front back)

  pub count-absent : (a : A) (xs : List A) → contains xs a ≡ false → count a xs ≡ 0
  count-absent a [] h = refl
  count-absent a (x ∷ xs) h = ground (arith, count-absent a xs)

  pub contains-count : (a : A) (xs : List A) → contains xs a ≡ true → 1 ≤ count a xs
  contains-count a [] h = ground arith
  contains-count a (x ∷ xs) h = ground (arith, contains-count a xs)

  pub count-discard_first :
      (b a : A) (xs : List A)
      → contains xs b ≡ true
      → count a (discard_first b xs) + one (b == a) ≡ count a xs
  count-discard_first b a [] h = ground arith
  count-discard_first b a (x ∷ xs) h = ground (arith, count-discard_first b a xs, e.agrees x b)

  pub length-discard_first :
      (b : A) (xs : List A) → contains xs b ≡ true → suc (length (discard_first b xs)) ≡ length xs
  length-discard_first b [] h = ground arith
  length-discard_first b (x ∷ xs) h = ground (arith, length-discard_first b xs)

  -- No entry twice.
  abbrev pub IsDistinct : List A → Type ℓ
  IsDistinct xs = (a : A) → count a xs ≤ 1

  pub length-dedup : (xs : List A) → IsDistinct xs → length (dedup xs) ≡ length xs
  length-dedup [] h = refl
  length-dedup (x ∷ xs) h =
      ground
        (arith, h x, beq_refl x, contains-count x xs, length-dedup xs (λ a. omega (arith, h a)))
