-- ===== src/Base/Dict.antt =====
-- Python's dict, as an association list in insertion order. A write to a present key keeps its
-- place, a new key goes to the end.
use Prim.Native.Nat.{ℕ, ◌+◌, ◌≤◌}
use mathlib.Core.Path.{◌≡◌, sym, subst}
use mathlib.Core.Logic.{inl, inr}
use mathlib.Core.Option.{Option, none, some}
use mathlib.Core.List.{List, [], ◌∷◌}
use native.Mathlib.Omega.{arith}
use reaper.Base.Tests.{BoolEq, ◌==◌, if◌then◌else◌, Bool-cases}
use reaper.Base.Lists.{All}

abbrev pub Dict {ℓ κ} : Type ℓ → Type κ → Type (ℓ ⊔ κ)
Dict K V = List (K × V)

module _ {ℓ κ} {K : Type ℓ} {V : Type κ} ⦃e : BoolEq K⦄ where
  -- d.get(k)
  abbrev pub get : Dict K V → K → Option V
  get [] k = none
  get ((j, v) ∷ d) k = if j == k then some v else get d k

  -- d[k] = v
  abbrev pub put : Dict K V → K → V → Dict K V
  put [] k v = (k, v) ∷ []
  put ((j, w) ∷ d) k v = if j == k then (j, v) ∷ d else (j, w) ∷ put d k v

  -- d.pop(k, None), del d[k]
  abbrev pub remove : Dict K V → K → Dict K V
  remove [] k = []
  remove ((j, w) ∷ d) k = if j == k then d else (j, w) ∷ remove d k

module _ {ℓ κ} {K : Type ℓ} {V : Type κ} where
  -- The sum of a weight over the values.
  abbrev pub total : (V → ℕ) → Dict K V → ℕ
  total w [] = 0
  total w ((k, v) ∷ d) = w v + total w d

  abbrev pub keys : Dict K V → List K
  keys [] = []
  keys ((k, v) ∷ d) = k ∷ keys d

  -- d.values()
  abbrev pub values : Dict K V → List V
  values [] = []
  values ((k, v) ∷ d) = v ∷ values d

abbrev pub weight_of {κ} : {V : Type κ} → (V → ℕ) → Option V → ℕ
weight_of w none = 0
weight_of w (some v) = w v

module _ {ℓ κ} {K : Type ℓ} {V : Type κ} ⦃e : BoolEq K⦄ where
  pub total-put :
      (w : V → ℕ) (d : Dict K V) (k : K) (v : V)
      → total w (put d k v) + weight_of w (get d k) ≡ total w d + w v
  total-put w [] k v = omega arith
  total-put w ((j, u) ∷ d) k v = ground (arith, total-put w d k v)

  pub total-remove :
      (w : V → ℕ) (d : Dict K V) (k : K) → total w (remove d k) + weight_of w (get d k) ≡ total w d
  total-remove w [] k = omega arith
  total-remove w ((j, u) ∷ d) k = ground (arith, total-remove w d k)

  pub weight_of-get-le : (w : V → ℕ) (d : Dict K V) (k : K) → weight_of w (get d k) ≤ total w d
  weight_of-get-le w d k = omega (arith, total-remove w d k)

  module _ {μ} (P : K × V → Type μ) where
    pub All-put : (d : Dict K V) (k : K) (v : V) → P (k, v) → All P d → All P (put d k v)
    All-put [] k v p h = (p, h)
    All-put ((j, u) ∷ d) k v p h = elim (Bool-cases (j == k)) [
      | inl t ↦ rw t (subst (λ i. P (i, v)) (sym ((e.agrees j k).0 t)) p, h.1)
      | inr f ↦ rw f (h.0, All-put d k v p h.1)
    ]

    pub All-remove : (d : Dict K V) (k : K) → All P d → All P (remove d k)
    All-remove [] k h = h
    All-remove ((j, u) ∷ d) k h = elim (Bool-cases (j == k)) [
      | inl t ↦ rw t h.1
      | inr f ↦ rw f (h.0, All-remove d k h.1)
    ]

    pub All-get : (d : Dict K V) (k : K) (v : V) → All P d → get d k ≡ some v → P (k, v)
    All-get [] k v h p = cc
    All-get ((j, u) ∷ d) k v h p = elim (Bool-cases (j == k)) [
      | inl t ↦
          subst (λ i. P (i, v)) ((e.agrees j k).0 t) (subst (λ x. P (j, x)) (ground (arith, p)) h.0)
      | inr f ↦ All-get d k v h.1 (ground (arith, p))
    ]
