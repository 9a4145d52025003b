-- ===== src/Pool/Mirror.antt =====
-- The live slots of SkeletonPool in reaper/pool.py mirror the table of its core, but for the slots whose
-- DROP is still to come.
use reaper.Base.{
  ℕ, ◌+◌, ◌≤◌, ◌≡◌, refl, ap, none, some, List, [], ◌∷◌, arith, All, count, one, ◌==◌, nat_eq,
  Option-cases, inl, inr, beq_refl,
}
use reaper.Base.Dict.{
  Dict, get, put, remove, keys, total, weight_of, total-put, total-remove, weight_of-get-le,
  All-put, All-remove, All-get,
}
use reaper.Control.Types.{SkeletonId, EffectKind, ControlEffect, ControlSlot, ReaperCore}
use reaper.Control.Core.{identity_eq}
use reaper.Control.Effects.{IsSound}
use reaper.Control.Drops.{held, dropped}

abbrev pub standing : SkeletonId → Dict ℕ SkeletonId → ℕ
standing i n = total (λ a. one (a == i)) n

abbrev pub IsKeyed : ℕ × SkeletonId → Type 0
IsKeyed entry = entry.0 ≡ entry.1.fd

-- Each live slot stands once, under its own descriptor, and each identity as often as the core's table
-- and the pending DROP effects have it.
pub record IsMirrored (n : Dict ℕ SkeletonId) (c : ReaperCore) (pending : List ControlEffect)
    : Type 0 where
  pub keyed : All IsKeyed n
  pub sole : (k : ℕ) → count k (keys n) ≤ 1
  pub mirrors : (i : SkeletonId) → standing i n ≡ held i c + count i (dropped pending)

standing-le :
    (n : Dict ℕ SkeletonId) (i : SkeletonId) → All IsKeyed n → standing i n ≤ count i.fd (keys n)
standing-le [] i h = omega arith
standing-le ((k, a) ∷ n) i h = ground (arith, h.0, standing-le n i h.1, identity_eq.agrees a i)

get-absent : (n : Dict ℕ SkeletonId) (k : ℕ) → get n k ≡ none → count k (keys n) ≡ 0
get-absent [] k h = refl
get-absent ((j, a) ∷ n) k h = ground (arith, get-absent n k)

count-put :
    (n : Dict ℕ SkeletonId) (k j : ℕ) (i : SkeletonId)
    → get n k ≡ none
    → count j (keys (put n k i)) ≡ count j (keys n) + one (k == j)
count-put [] k j i h = omega arith
count-put ((l, a) ∷ n) k j i h = ground (arith, count-put n k j i)

count-remove : (n : Dict ℕ SkeletonId) (k j : ℕ) → count j (keys (remove n k)) ≤ count j (keys n)
count-remove [] k j = omega arith
count-remove ((l, a) ∷ n) k j = ground (arith, count-remove n k j)

-- An identity that stands is the one under its descriptor.
pub standing-get :
    (n : Dict ℕ SkeletonId) (i : SkeletonId)
    → All IsKeyed n
    → count i.fd (keys n) ≤ 1
    → 1 ≤ standing i n
    → get n i.fd ≡ some i
standing-get [] i h s l = absurd (omega (arith, l))
standing-get ((k, a) ∷ n) i h s l =
    ground (arith, h.0, standing-le n i h.1, standing-get n i h.1, identity_eq.agrees a i)

module _ {n : Dict ℕ SkeletonId} {c : ReaperCore} {pending : List ControlEffect} where
  -- A descriptor that no live slot has is free in the core.
  pub Mirrored-free :
      (fd : ℕ)
      → IsMirrored n c pending
      → All IsSound c.slots
      → get n fd ≡ none
      → get c.slots fd ≡ none
  Mirrored-free fd m sound free = elim (Option-cases (get c.slots fd)) [
    | inl e ↦ e
    | inr (s, e) ↦
        let at : fd ≡ s.identity.fd = (All-get IsSound c.slots fd s sound e).keyed in
        absurd (
          omega (
            arith,
            weight_of-get-le (λ (x : ControlSlot). one (x.identity == s.identity)) c.slots fd,
            ap (weight_of (λ (x : ControlSlot). one (x.identity == s.identity))) e,
            ap one (beq_refl s.identity),
            m.mirrors s.identity,
            standing-le n s.identity m.keyed,
            ap (λ k. count k (keys n)) at,
            get-absent n fd free,
          ))
  ]

  pub Mirrored-put :
      (i : SkeletonId)
      → IsMirrored n c pending
      → get n i.fd ≡ none
      → (All IsKeyed (put n i.fd i))
        × ((k : ℕ) → count k (keys (put n i.fd i)) ≤ 1)
        × ((a : SkeletonId)
            → standing a (put n i.fd i) ≡ held a c + count a (dropped pending) + count a (i ∷ []))
  Mirrored-put i m free = (
    All-put IsKeyed n i.fd i refl m.keyed,
    λ k. ground (arith, count-put n i.fd k i free, m.sole k, get-absent n i.fd free),
    λ a. omega (
      arith,
      total-put (λ x. one (x == a)) n i.fd i,
      ap (weight_of (λ (x : SkeletonId). one (x == a))) free,
      m.mirrors a,
    ),
  )

-- A DROP takes the identity that it names out of the live slots.
pub Mirrored-drop :
    (n : Dict ℕ SkeletonId) (c : ReaperCore) (pending : List ControlEffect) (e : ControlEffect)
    (i : SkeletonId)
    → e.kind ≡ EffectKind.drop
    → e.identity ≡ some i
    → IsMirrored n c (e ∷ pending)
    → (get n i.fd ≡ some i) × IsMirrored (remove n i.fd) c pending
Mirrored-drop n c pending e i k h m = (
  found,
  record {
    keyed = All-remove IsKeyed n i.fd m.keyed;
    sole = λ j. omega (arith, count-remove n i.fd j, m.sole j);
    mirrors = λ a. omega (
      arith,
      total-remove (λ x. one (x == a)) n i.fd,
      ap (weight_of (λ (x : SkeletonId). one (x == a))) found,
      mirrors a,
    );
  },
)
  where
    mirrors :
        (a : SkeletonId) → standing a n ≡ held a c + (one (i == a) + count a (dropped pending))
    mirrors a = rw (k, h) at (m.mirrors a)

    found : get n i.fd ≡ some i
    found = standing-get n i m.keyed (m.sole i.fd) (omega (arith, mirrors i, ap one (beq_refl i)))
