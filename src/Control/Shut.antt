-- ===== src/Control/Shut.antt =====
-- Only CLOSE makes ReaperCore of reaper/control.py closing.
use reaper.Base.{
  ℕ, ◌≡◌, refl, true, false, Bool, Option-cases, inl, inr, arith, not, contains, if_elim, nat_eq,
  string_eq,
}
use reaper.Control.Types.{SkeletonId, EventKind, ControlEvent, ReaperCore}
use reaper.Control.Core.{
  Step, admitted, register, spawned, spawn_failed, ready, submit, result, lost, deadline, dispatch,
}
use reaper.Control.Apply.{handle, transition}
use reaper.Control.Slots.{SameTable-fill}

-- A step that leaves the flag as it was.
abbrev Leaves : ReaperCore → Step → Type 0
Leaves c s = s.0.closing ≡ c.closing

register-Leaves : (c : ReaperCore) (gen : ℕ) (i : SkeletonId) → Leaves c (register c gen i)
unfolding register
register-Leaves c gen i =
    if_elim (Leaves c) (not (contains c.pending_spawns gen)) _ _ (λ _. refl)
      (λ _.
        if_elim (Leaves c) c.closing _ _ (λ _. refl)
          (λ _. (SameTable-fill (admitted c gen i)).closing))

spawned-Leaves : (c : ReaperCore) (e : ControlEvent) → Leaves c (spawned c e)
unfolding spawned
spawned-Leaves c e = elim (Option-cases e.gen) [
  | inl n ↦ rw (n, spawned) refl
  | inr (g, h) ↦ elim (Option-cases e.identity) [
    | inl n ↦ rw (h, n, spawned) refl
    | inr (i, p) ↦ rw (h, p, spawned) (register-Leaves c g i)
  ]
]

abbrev pub is_close : EventKind → Bool
is_close EventKind.close = true
is_close k = false

handle-Leaves :
    (k : EventKind) (c : ReaperCore) (e : ControlEvent)
    → is_close k ≡ false
    → Leaves c (handle k c e)
unfolding handle spawn_failed ready submit result lost deadline
handle-Leaves EventKind.start c e h = (SameTable-fill c).closing
handle-Leaves EventKind.recover c e h = (SameTable-fill c).closing
handle-Leaves EventKind.spawned c e h = spawned-Leaves c e
handle-Leaves EventKind.close c e h = cc
handle-Leaves k c e h = ground arith

-- Every other event leaves the core open or closing as it was.
pub transition-Leaves :
    (c : ReaperCore) (e : ControlEvent)
    → is_close e.kind ≡ false
    → (transition c e).0.closing ≡ c.closing
unfolding transition dispatch
transition-Leaves c e h = handle-Leaves e.kind c e h
