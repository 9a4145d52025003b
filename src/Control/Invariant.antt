-- ===== src/Control/Invariant.antt =====
-- The invariant of ReaperCore in reaper/control.py, and how a write to one slot moves it.
use reaper.Base.{
  ℕ, ◌+◌, String, ◌≡◌, ap, sym, subst, true, false, Option, none, some, arith, count, count-append,
  string_eq, nat_eq, one, ◌==◌, length, if◌then◌else◌, if_elim, Bool, false, Bool-cases,
  Option-cases, inl, inr,
}
use reaper.Base.Dict.{Dict, total, values, get, put, total-put}
use reaper.Control.Types.{SkeletonId, ControlSlot, ReaperCore}
use reaper.Control.Core.{Step, slot_job, slot_jobs, jobs, find, same_identity}
use reaper.Control.Apply.{slot_gens, gens}
use reaper.Control.Effects.{count-slot_jobs, count-slot_gens, length-total}

abbrev pub IsNamed : String → Type 0
IsNamed job = (job == "") ≡ false

pub count-jobs :
    (j : String) (c : ReaperCore)
    → count j (jobs c) ≡ count j c.queue + total (λ s. count j (slot_job s)) c.slots
count-jobs j c =
    omega (arith, count-append j c.queue (slot_jobs (values c.slots)), count-slot_jobs j c.slots)

pub count-gens :
    (g : ℕ) (c : ReaperCore)
    → count g (gens c) ≡ count g c.pending_spawns + total (λ s. one (s.identity.gen == g)) c.slots
count-gens g c =
    omega (
      arith,
      count-append g c.pending_spawns (slot_gens (values c.slots)),
      count-slot_gens g c.slots,
    )

same_identity→eq : (a b : SkeletonId) → same_identity a b ≡ true → a ≡ b
same_identity→eq a b h = ground arith

matched :
    (d : Dict ℕ ControlSlot) (i : SkeletonId) (t s : ControlSlot)
    → get d i.fd ≡ some t
    → (if same_identity t.identity i then some t else none) ≡ some s
    → (get d s.identity.fd ≡ some s) × (some i ≡ some s.identity)
matched d i t s e h = elim (Bool-cases (same_identity t.identity i)) [
  | inl m ↦
      let same : t ≡ s = ground arith in
      let at : t.identity ≡ i = same_identity→eq t.identity i m in
      subst (λ x. (get d x.identity.fd ≡ some x) × (some i ≡ some x.identity)) same
        (subst (λ k. get d k.fd ≡ some t) (sym at) e, ap some (sym at))
  | inr m ↦ ground arith
]

-- What `find` gives stands in the table under its own descriptor, and is what was asked for.
pub find-some :
    (c : ReaperCore) (i : Option SkeletonId) (s : ControlSlot)
    → find c i ≡ some s
    → (get c.slots s.identity.fd ≡ some s) × (i ≡ some s.identity)
unfolding find
find-some c none s h = cc
find-some c (some i) s h = elim (Option-cases (get c.slots i.fd)) [
  | inl e ↦ ground arith
  | inr (t, e) ↦ matched c.slots i t s e (rw (e, find) at h)
]

-- One slot of the table replaced by another with the same identity.
module _ (c : ReaperCore) (s t : ControlSlot) (found : get c.slots s.identity.fd ≡ some s)
    (kept : t.identity ≡ s.identity) where
  abbrev replaced : Dict ℕ ControlSlot
  replaced = put c.slots s.identity.fd t

  pub replace-total : (w : ControlSlot → ℕ) → total w replaced + w s ≡ total w c.slots + w t
  replace-total w = rw found at (total-put w c.slots s.identity.fd t)

  pub length-replace : length replaced ≡ length c.slots
  length-replace =
      omega (arith, length-total replaced, length-total c.slots, replace-total (λ s. 1))

  pub gens-replace : (g : ℕ) → count g (gens (record c { slots = replaced })) ≡ count g (gens c)
  gens-replace g = omega (
    arith,
    count-gens g c,
    count-gens g (record c { slots = replaced }),
    replace-total (λ x. one (x.identity.gen == g)),
    ap (λ (i : SkeletonId). one (i.gen == g)) kept,
  )

  pub jobs-replace :
      (j : String)
      → count j (jobs (record c { slots = replaced })) + count j (slot_job s)
        ≡ count j (jobs c) + count j (slot_job t)
  jobs-replace j = omega (
    arith,
    count-jobs j c,
    count-jobs j (record c { slots = replaced }),
    replace-total (λ x. count j (slot_job x)),
  )

-- A property of the core that both branches of a method leave.
pub branch_core :
    (P : ReaperCore → Type 0) (b : Bool) (x y : Step)
    → (b ≡ true → P x.0)
    → (b ≡ false → P y.0)
    → P (if b then x else y).0
branch_core P = if_elim (λ (s : Step). P s.0)
