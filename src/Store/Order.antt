-- ===== src/Store/Order.antt =====
-- ORDER BY … LIMIT of the statements.
use reaper.Base.{
  ℕ, zero, suc, ◌≡◌, refl, Bool, true, ◌&&◌, ◌||◌, Option, none, some, List, [], ◌∷◌, All,
  if◌then◌else◌, if_elim, arith, subst,
}
use mathlib.Core.Option.{some-injective}
use reaper.Store.Rows.{any, keep}

module _ {ℓ} {A : Type ℓ} (le : A → A → Bool) where
  unfoldable pub insert_by : A → List A → List A
  insert_by x [] = x ∷ []
  insert_by x (y ∷ ys) = let rest = insert_by x ys in if le x y then x ∷ y ∷ ys else y ∷ rest

  unfoldable pub sort_by : List A → List A
  unfolding insert_by
  sort_by [] = []
  sort_by (x ∷ xs) = insert_by x (sort_by xs)

  any-insert_by :
      (test : A → Bool) (x : A) (xs : List A) → any test (insert_by x xs) ≡ (test x || any test xs)
  unfolding insert_by
  any-insert_by test x [] = refl
  any-insert_by test x (y ∷ ys) = ground (arith, any-insert_by test x ys)

  -- Sorting keeps the rows.
  pub any-sort_by : (test : A → Bool) (xs : List A) → any test (sort_by xs) ≡ any test xs
  unfolding sort_by
  any-sort_by test [] = refl
  any-sort_by test (x ∷ xs) = ground (arith, any-insert_by test x (sort_by xs), any-sort_by test xs)

  All-insert_by {κ} :
      (P : A → Type κ) (x : A) (xs : List A) → P x → All P xs → All P (insert_by x xs)
  unfolding insert_by
  All-insert_by P x [] p h = (p, tt)
  All-insert_by P x (y ∷ ys) p h =
      if_elim (All P) (le x y) _ _ (λ _. (p, h)) (λ _. (h.0, All-insert_by P x ys p h.1))

  pub All-sort_by {κ} : (P : A → Type κ) (xs : List A) → All P xs → All P (sort_by xs)
  unfolding sort_by
  All-sort_by P [] h = h
  All-sort_by P (x ∷ xs) h = All-insert_by P x (sort_by xs) h.0 (All-sort_by P xs h.1)

-- LIMIT
abbrev pub limited {ℓ} : {A : Type ℓ} → ℕ → List A → List A
limited n [] = []
limited zero (x ∷ xs) = []
limited (suc n) (x ∷ xs) = x ∷ limited n xs

abbrev pub head {ℓ} : {A : Type ℓ} → List A → Option A
head [] = none
head (x ∷ xs) = some x

pub All-head {ℓ κ} :
    {A : Type ℓ} (P : A → Type κ) (xs : List A) (x : A) → All P xs → head xs ≡ some x → P x
All-head P [] x h e = cc
All-head P (y ∷ ys) x h e = subst P (some-injective y x e) h.0

pub any-limited {ℓ} :
    {A : Type ℓ} (test : A → Bool) (n : ℕ) (xs : List A)
    → any test (limited n xs) ≡ true
    → any test xs ≡ true
any-limited test n [] h = h
any-limited test zero (x ∷ xs) h = ground (arith, h)
any-limited test (suc n) (x ∷ xs) h = ground (arith, any-limited test n xs)

pub any-keep {ℓ} :
    {A : Type ℓ} (test kept : A → Bool) (xs : List A)
    → any test (keep kept xs) ≡ true
    → any (λ x. kept x && test x) xs ≡ true
any-keep test kept [] h = h
any-keep test kept (x ∷ xs) h = ground (arith, any-keep test kept xs)
