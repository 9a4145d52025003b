-- ===== src/Pool/Names.antt =====
-- The identities in the live slots of SkeletonPool in reaper/pool.py, which a write to a slot's fields
-- leaves alone.
use reaper.Base.{ℕ, ◌≡◌, refl, ap, ◌∙◌, none, some, [], ◌∷◌, arith, nat_eq, Option-cases, inl, inr}
use reaper.Base.Dict.{Dict, get, put, remove}
use reaper.Control.Types.{SkeletonId, ControlSlot}
use reaper.Control.Core.{identity_eq}
use reaper.Pool.Slots.{Slot, SkeletonPool, live_slot, write_slot, drop, sync_each, synced}

abbrev pub names : Dict ℕ Slot → Dict ℕ SkeletonId
names [] = []
names ((fd, slot) ∷ d) = (fd, slot.identity) ∷ names d

pub names-put :
    (d : Dict ℕ Slot) (k : ℕ) (s : Slot) → names (put d k s) ≡ put (names d) k s.identity
names-put [] k s = refl
names-put ((j, t) ∷ d) k s = ground (arith, names-put d k s)

pub names-remove : (d : Dict ℕ Slot) (k : ℕ) → names (remove d k) ≡ remove (names d) k
names-remove [] k = refl
names-remove ((j, t) ∷ d) k = ground (arith, names-remove d k)

pub get-names :
    (d : Dict ℕ Slot) (k : ℕ)
    → get (names d) k ≡ elim (get d k) [ none ↦ none | some s ↦ some s.identity ]
get-names [] k = refl
get-names ((j, t) ∷ d) k = ground (arith, get-names d k)

pub names-sync_each :
    (table : Dict ℕ ControlSlot) (d : Dict ℕ Slot) → names (sync_each table d) ≡ names d
unfolding sync_each
names-sync_each table [] = refl
names-sync_each table ((fd, s) ∷ d) =
    ap (λ i. (fd, i) ∷ names (sync_each table d)) same
    ∙ ap (◌∷◌ (fd, s.identity)) (names-sync_each table d)
  where
    same : (synced table fd s).identity ≡ s.identity
    same = ground arith

pub put-same : (d : Dict ℕ SkeletonId) (k : ℕ) (i : SkeletonId) → get d k ≡ some i → put d k i ≡ d
put-same [] k i h = cc
put-same ((j, a) ∷ d) k i h = ground (arith, put-same d k i)

-- A live slot stands under its descriptor with the identity that was asked for.
pub live_slot-get :
    (p : SkeletonPool) (i : SkeletonId) (s : Slot)
    → live_slot p i ≡ some s
    → (get p.slots i.fd ≡ some s) × (s.identity ≡ i)
live_slot-get p i s h = elim (Option-cases (get p.slots i.fd)) [
  | inl n ↦ ground arith
  | inr (t, e) ↦ ground (arith, identity_eq.agrees t.identity i)
]

pub names-write_slot : (p : SkeletonPool) (s : Slot) → names (write_slot p s).slots ≡ names p.slots
unfolding write_slot
names-write_slot p s = elim (Option-cases (live_slot p s.identity)) [
  | inl n ↦ rw (n, write_slot) refl
  | inr (old, e) ↦
      let found = live_slot-get p s.identity old e in
      rw (e, write_slot)
        (names-put p.slots s.identity.fd s
          ∙ put-same (names p.slots) s.identity.fd s.identity
              (get-names p.slots s.identity.fd ∙ rw (found.0) (ap some found.1)))
]

pub names-drop :
    (p : SkeletonPool) (s old : Slot)
    → live_slot p s.identity ≡ some old
    → names (drop p s).slots ≡ remove (names p.slots) s.identity.fd
unfolding drop
names-drop p s old e = rw (e, drop) (names-remove p.slots s.identity.fd)
