-- ===== src/Control/Costs.antt =====
-- How many effects ReaperCore of reaper/control.py can still ask for while children are spawned.
use reaper.Base.{
  ℕ, suc, zero, ◌+◌, ◌-◌, ◌*◌, ◌≤◌, ◌<◌, ◌≡◌, refl, ap, none, some, List, [], ◌∷◌, ◌++◌, arith,
  contains, nat_eq, Bool-cases, inl, inr, not, ◌&&◌, ltb, if_elim, length, String,
}
use reaper.Base.Dict.{Dict, get, put, weight_of, total-put}
use reaper.Control.Types.{
  SkeletonId, SkeletonState, EventKind, EffectKind, ControlSlot, ControlEvent, ControlEffect,
  ReaperCore,
}
use reaper.Control.Core.{
  Step, fill_loop, fill, admitted, register, spawned, spawn_failed, dispatch, dispatch_slots,
  is_idle, discard,
}
use reaper.Control.Apply.{handle, transition}
use reaper.Control.Effects.{length-total}
use reaper.Control.Slots.{SameTable-fill}
use reaper.Control.Spawns.{IsIssued, IsIssued-admitted}

-- A SPAWN can bring the four effects of a discarded child, and counts for five.
abbrev pub cost : ControlEffect → ℕ
cost e = elim e.kind [ EffectKind.spawn ↦ 5 | _ ↦ 1 ]

abbrev pub costs : List ControlEffect → ℕ
costs [] = 0
costs (e ∷ es) = cost e + costs es

-- Each child that is still missing can bring a new round of spawns, and each waiting job one SEND_RUN.
abbrev pub potential : ReaperCore → ℕ
potential c = 5 * c.target * (c.target - length c.slots) + length c.queue

pub costs-append : (es fs : List ControlEffect) → costs (es ++ fs) ≡ costs es + costs fs
costs-append [] fs = omega arith
costs-append (e ∷ es) fs = omega (arith, costs-append es fs)

costs-fill_loop : (fuel n : ℕ) (c : ReaperCore) → costs (fill_loop fuel n c).1 ≤ 5 * fuel
unfolding fill_loop
costs-fill_loop zero n c = omega arith
costs-fill_loop (suc fuel) n c = elim (Bool-cases (not c.closing && ltb n c.target)) [
  | inl more ↦ rw (more, fill_loop) (omega (arith, costs-fill_loop fuel (suc n) _))
  | inr done ↦ rw (done, fill_loop) (omega arith)
]

costs-fill : (c : ReaperCore) → costs (fill c).1 ≤ 5 * c.target
unfolding fill
costs-fill c = costs-fill_loop c.target _ c

length-put-new :
    (d : Dict ℕ ControlSlot) (k : ℕ) (s : ControlSlot)
    → get d k ≡ none
    → length (put d k s) ≡ suc (length d)
length-put-new d k s free = omega (
  arith,
  length-total d,
  length-total (put d k s),
  total-put (λ x. 1) d k s,
  ap (weight_of (λ (x : ControlSlot). 1)) free,
)

-- One child more leaves room for one round of spawns less.
one_more : (t n : ℕ) → n < t → 5 * t * (t - n) ≡ 5 * t * (t - suc n) + 5 * t
one_more t n h = let e : t - n ≡ suc (t - suc n) = omega arith in rw e (grind arith)

abbrev pub spent : Step → ℕ
spent s = costs s.1 + potential s.0

potential-fill : (c : ReaperCore) → potential (fill c).0 ≡ potential c
potential-fill c = let same = SameTable-fill c in rw (same.slots, same.queue, same.target) refl

spent-register :
    (c : ReaperCore) (gen : ℕ) (i : SkeletonId)
    → IsIssued c
    → i.gen ≡ gen
    → get c.slots i.fd ≡ none
    → spent (register c gen i) ≤ 4 + potential c
unfolding register discard
spent-register c gen i h match free =
    if_elim (λ x. spent x ≤ 4 + potential c) (not (contains c.pending_spawns gen)) _ _
      (λ _. omega arith)
      λ known.
        if_elim (λ x. spent x ≤ 4 + potential c) c.closing _ _ (λ _. omega arith)
          λ open_.
            let grown =
              length-put-new c.slots i.fd
                (record { identity = i; state = SkeletonState.starting; job = none }) free in
            let fits = (IsIssued-admitted c h gen i open_ (ground (arith, known)) match).fits in
            omega (
              arith,
              costs-fill (admitted c gen i),
              potential-fill (admitted c gen i),
              grown,
              fits,
              one_more c.target (length c.slots) (omega (arith, grown, fits)),
              ap (λ (n : ℕ). 5 * c.target * (c.target - n)) grown,
            )

spent-dispatch_slots :
    (d : Dict ℕ ControlSlot) (queue : List String)
    → (costs (dispatch_slots d queue).2 + length (dispatch_slots d queue).1 ≡ length queue)
      × (length (dispatch_slots d queue).0 ≡ length d)
unfolding dispatch_slots
spent-dispatch_slots [] [] = (refl, refl)
spent-dispatch_slots (x ∷ d) [] = (refl, refl)
spent-dispatch_slots [] (job ∷ queue) = (omega arith, refl)
spent-dispatch_slots ((fd, s) ∷ d) (job ∷ queue) = elim (Bool-cases (is_idle s.state)) [
  | inl idle ↦
      let ih = spent-dispatch_slots d queue in
      rw (idle, dispatch_slots) (omega (arith, ih.0), ap suc ih.1)
  | inr other ↦
      let ih = spent-dispatch_slots d (job ∷ queue) in
      rw (other, dispatch_slots) (omega (arith, ih.0), ap suc ih.1)
]

spent-dispatch : (c : ReaperCore) → spent (dispatch c) ≡ potential c
unfolding dispatch
spent-dispatch c =
    let sent = spent-dispatch_slots c.slots c.queue in
    omega (arith, sent.0, ap (λ (n : ℕ). 5 * c.target * (c.target - n)) sent.1)

transition-spent :
    (c : ReaperCore) (e : ControlEvent) (n : ℕ)
    → spent (handle e.kind c e) ≤ n
    → spent (transition c e) ≤ n
unfolding transition
transition-spent c e n h = omega (
  arith,
  h,
  costs-append (handle e.kind c e).1 (dispatch (handle e.kind c e).0).1,
  spent-dispatch (handle e.kind c e).0,
)

-- A child that arrives costs less than its SPAWN.
pub spawned-spent :
    (c : ReaperCore) (e : ControlEvent) (i : SkeletonId)
    → e.kind ≡ EventKind.spawned
    → e.gen ≡ some i.gen
    → e.identity ≡ some i
    → IsIssued c
    → get c.slots i.fd ≡ none
    → spent (transition c e) ≤ 4 + potential c
unfolding handle spawned
spawned-spent c e i k g p h free =
    transition-spent c e (4 + potential c)
      (rw k (rw (g, p, spawned) (spent-register c i.gen i h refl free)))

pub spawn_failed-spent :
    (c : ReaperCore) (e : ControlEvent)
    → e.kind ≡ EventKind.spawn_failed
    → spent (transition c e) ≤ potential c
unfolding handle spawn_failed
spawn_failed-spent c e k = transition-spent c e (potential c) (rw k (ground arith))
