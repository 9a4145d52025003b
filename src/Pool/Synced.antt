-- ===== src/Pool/Synced.antt =====
-- After drive of SkeletonPool in reaper/pool.py each live slot shows the state and the job that the core
-- gives its child.
use reaper.Base.{
  ℕ, zero, suc, ◌+◌, ◌≤◌, ◌≡◌, refl, sym, subst, ap, ◌∙◌, Option, none, some, List, [], ◌∷◌, ◌++◌,
  arith, All, one, ◌==◌, nat_eq, Bool-cases, inl, inr, beq_refl,
}
use mathlib.Core.Option.{some-injective}
use reaper.Base.Dict.{Dict, get, total, weight_of, weight_of-get-le, All-get}
use reaper.Control.Types.{SkeletonId, ControlEffect, ControlSlot, ReaperCore}
use reaper.Control.Core.{identity_eq}
use reaper.Control.Costs.{costs, potential}
use reaper.Control.Effects.{IsSound}
use reaper.Control.Histories.{Reached-IsValid}
use reaper.Pool.Slots.{Slot, SkeletonPool, sync_slots, sync_each, synced}
use reaper.Pool.Drive.{
  Host, Turn, went, threw, Driven, driven, raised, unfinished, drive, drive_effect,
}
use reaper.Pool.Names.{names, get-names}
use reaper.Pool.Mirror.{IsMirrored, standing, standing-get, IsKeyed}
use reaper.Pool.Carries.{IsServed, Start, Driving}
use reaper.Pool.Finishes.{Finishes, drive-Finishes}

-- What a slot shows is what the core has under its descriptor.
abbrev pub ShowsSlot : ReaperCore → ℕ → Option Slot → Type 0
ShowsSlot core fd none = Unit
ShowsSlot core fd (some s) =
    (c : ControlSlot) × (get core.slots fd ≡ some c)
    × (c.identity ≡ s.identity)
    × (s.state ≡ c.state)
    × (s.job_id ≡ c.job)

get-sync_each :
    (table : Dict ℕ ControlSlot) (d : Dict ℕ Slot) (fd : ℕ)
    → get (sync_each table d) fd
      ≡ elim (get d fd) [ none ↦ none | some s ↦ some (synced table fd s) ]
unfolding sync_each
get-sync_each table [] fd = refl
get-sync_each table ((k, s) ∷ d) fd = elim (Bool-cases (k == fd)) [
  | inl same ↦ rw same (ap (λ j. some (synced table j s)) ((nat_eq.agrees k fd).0 same))
  | inr other ↦ rw other (get-sync_each table d fd)
]

-- A descriptor whose identity is held is in the core's table.
held-get :
    (d : Dict ℕ ControlSlot) (i : SkeletonId)
    → All IsSound d
    → 1 ≤ total (λ s. one (s.identity == i)) d
    → (c : ControlSlot) × (get d i.fd ≡ some c)
held-get [] i sound h = absurd (omega (arith, h))
held-get ((k, s) ∷ d) i sound h = elim (Bool-cases (k == i.fd)) [
  | inl same ↦ (s, rw same refl)
  | inr other ↦
      let (c, e) =
        held-get d i sound.1
          (ground (arith, h, other, sound.0.keyed, identity_eq.agrees s.identity i)) in
      (c, rw other e)
]

weigh :
    (d : Dict ℕ ControlSlot) (fd : ℕ) (c : ControlSlot)
    → get d fd ≡ some c
    → 1 ≤ total (λ s. one (s.identity == c.identity)) d
weigh d fd c e = omega (
  arith,
  weight_of-get-le (λ (s : ControlSlot). one (s.identity == c.identity)) d fd,
  ap (weight_of (λ (s : ControlSlot). one (s.identity == c.identity))) e,
  ap one (beq_refl c.identity),
)

-- The child under a live slot's descriptor is the slot's own.
mirrored-get :
    (n : Dict ℕ SkeletonId) (c : ReaperCore) (fd : ℕ) (i : SkeletonId)
    → IsMirrored n c []
    → All IsSound c.slots
    → get n fd ≡ some i
    → (s : ControlSlot) × (get c.slots fd ≡ some s) × (s.identity ≡ i)
mirrored-get n c fd i m sound h =
    let at : fd ≡ i.fd = All-get IsKeyed n fd i m.keyed h in
    let stands : 1 ≤ standing i n = omega (
      arith,
      weight_of-get-le (λ (a : SkeletonId). one (a == i)) n fd,
      ap (weight_of (λ (a : SkeletonId). one (a == i))) h,
      ap one (beq_refl i),
    ) in
    let (s, e) = held-get c.slots i sound (omega (arith, stands, m.mirrors i)) in
    let found : get c.slots fd ≡ some s = subst (λ k. get c.slots k ≡ some s) (sym at) e in
    let keyed : fd ≡ s.identity.fd = (All-get IsSound c.slots fd s sound found).keyed in
    let own : get n s.identity.fd ≡ some s.identity =
      standing-get n s.identity m.keyed (m.sole s.identity.fd)
        (omega (arith, weigh c.slots fd s found, m.mirrors s.identity)) in
    (
      s,
      found,
      some-injective _ _ (sym (subst (λ k. get n k ≡ some s.identity) (sym keyed) own) ∙ h),
    )

ShowsSlot-sync_slots :
    (p : SkeletonPool) (fd : ℕ)
    → IsMirrored (names p.slots) p.core []
    → All IsSound p.core.slots
    → ShowsSlot p.core fd (get (sync_slots p).slots fd)
unfolding sync_slots
ShowsSlot-sync_slots p fd m sound =
    subst (ShowsSlot p.core fd) (sym (get-sync_each p.core.slots p.slots fd))
      (go (get p.slots fd) refl)
  where
    go :
        (o : Option Slot)
        → get p.slots fd ≡ o
        → ShowsSlot p.core fd (elim o [ none ↦ none | some s ↦ some (synced p.core.slots fd s) ])
    go none e = tt
    go (some s) e =
        let (c, found, own) =
          mirrored-get (names p.slots) p.core fd s.identity m sound
            (get-names p.slots fd ∙ rw e refl) in
        let shown : synced p.core.slots fd s ≡ record s { state = c.state; job_id = c.job } =
          ground (arith, found, own, identity_eq.agrees c.identity s.identity) in
        subst (λ x. ShowsSlot p.core fd (some x)) (sym shown) (c, found, own, refl, refl)

-- A second synchronisation changes nothing.
sync_each_twice :
    (table : Dict ℕ ControlSlot) (d : Dict ℕ Slot)
    → sync_each table (sync_each table d) ≡ sync_each table d
unfolding sync_each
sync_each_twice table [] = refl
sync_each_twice table ((fd, s) ∷ d) =
    ap (λ x. (fd, x) ∷ sync_each table (sync_each table d)) same
    ∙ ap (◌∷◌ (fd, synced table fd s)) (sync_each_twice table d)
  where
    same : synced table fd (synced table fd s) ≡ synced table fd s
    same = ground arith

-- What `drive` leaves has been synchronised.
abbrev Ends : Driven → Type 0
Ends (driven q) = sync_slots q ≡ q
Ends (raised q) = Unit
Ends (unfinished q es) = Unit

drive-Ends :
    (host : Host) (fuel : ℕ) (pending : List ControlEffect) (p : SkeletonPool)
    → Ends (drive host fuel pending p)
unfolding drive sync_slots
drive-Ends host fuel [] p = ap (λ d. record p { slots = d }) (sync_each_twice p.core.slots p.slots)
drive-Ends host zero (e ∷ pending) p = tt
drive-Ends host (suc fuel) (e ∷ pending) p =
    go (drive-Ends host fuel) (drive_effect host e.kind e p)
  where
    go :
        ((later : List ControlEffect) (q : SkeletonPool) → Ends (drive host fuel later q))
        → (t : Turn)
        → Ends (elim t [ went q more ↦ drive host fuel (pending ++ more) q | threw q ↦ raised q ])
    go rest (went q more) = rest (pending ++ more) q
    go rest (threw q) = tt

abbrev pub Shows : ℕ → Driven → Type 0
Shows fd (driven q) = ShowsSlot q.core fd (get q.slots fd)
Shows fd (raised q) = ⊥
Shows fd (unfinished q es) = ⊥

shown : (s : Start) (fd : ℕ) (r : Driven) → Finishes s r → Ends r → Shows fd r
shown s fd (driven q) d e =
    subst (λ x. ShowsSlot q.core fd (get x.slots fd)) e
      (ShowsSlot-sync_slots q fd d.mirrored (Reached-IsValid d.history).orderly.sound)
shown s fd (raised q) d e = d
shown s fd (unfinished q es) d e = d

-- With a system that serves it, which lets the parent kill its children's groups, and fuel for its cost, a
-- drive under way ends, and the live slot under any
-- descriptor then has the identity, the state and the job of the core's slot under that descriptor.
pub drive-Shows :
    (host : Host)
    → IsServed host
    → {s : Start} (fuel fd : ℕ) (pending : List ControlEffect) (p : SkeletonPool)
    → Driving s pending p
    → costs pending + potential p.core ≤ fuel
    → Shows fd (drive host fuel pending p)
drive-Shows host served {s} fuel fd pending p d enough =
    shown s fd (drive host fuel pending p) (drive-Finishes host served fuel pending p d enough)
      (drive-Ends host fuel pending p)
