-- ===== src/Control/Methods.antt =====
-- Every method of ReaperCore in reaper/control.py keeps the generations distinct and the pool
-- within its target.
use reaper.Base.{
  ℕ, suc, String, ◌≡◌, refl, ap, none, some, List, [], ◌∷◌, arith, contains, count, count-append,
  string_eq, nat_eq, length, Bool-cases, Option-cases, inl, inr, not,
}
use reaper.Base.Dict.{Dict, values}
use reaper.Control.Types.{
  SkeletonId, SkeletonState, EventKind, ControlSlot, ControlEvent, ReaperCore,
}
use reaper.Control.Core.{
  jobs, find, admitted, register, spawned, spawn_failed, ready, submit, result, lost, close,
  deadline, dispatch, dispatch_slots, is_starting, is_running, is_idle, owns, stop_slots,
}
use reaper.Control.Apply.{handle, slot_gens}
use reaper.Control.Invariant.{find-some, branch_core}
use reaper.Control.Spawns.{
  IsMatched, IsIssued, IsIssued-le, IsIssued-fill, IsIssued-dropped, IsIssued-admitted,
  IsIssued-put, IsIssued-remove,
}

-- The table after `close` or `dispatch` has the same identities.
abbrev SameGens : Dict ℕ ControlSlot → Dict ℕ ControlSlot → Type 0
SameGens d d' = (length d' ≡ length d) × (slot_gens (values d') ≡ slot_gens (values d))

SameGens-stop_slots : (d : Dict ℕ ControlSlot) → SameGens d (stop_slots d).0
unfolding stop_slots
SameGens-stop_slots [] = (refl, refl)
SameGens-stop_slots ((fd, s) ∷ d) =
    let ih = SameGens-stop_slots d in (ap suc ih.0, ap (◌∷◌ s.identity.gen) ih.1)

SameGens-dispatch_slots :
    (d : Dict ℕ ControlSlot) (queue : List String) → SameGens d (dispatch_slots d queue).0
unfolding dispatch_slots
SameGens-dispatch_slots [] [] = (refl, refl)
SameGens-dispatch_slots (x ∷ d) [] = (refl, refl)
SameGens-dispatch_slots [] (job ∷ queue) = (refl, refl)
SameGens-dispatch_slots ((fd, s) ∷ d) (job ∷ queue) = elim (Bool-cases (is_idle s.state)) [
  | inl idle ↦
      let ih = SameGens-dispatch_slots d queue in
      rw (idle, dispatch_slots) (ap suc ih.0, ap (◌∷◌ s.identity.gen) ih.1)
  | inr other ↦
      let ih = SameGens-dispatch_slots d (job ∷ queue) in
      rw (other, dispatch_slots) (ap suc ih.0, ap (◌∷◌ s.identity.gen) ih.1)
]

module _ (c : ReaperCore) (h : IsIssued c) where
  IsIssued-register : (g : ℕ) (i : SkeletonId) → i.gen ≡ g → IsIssued (register c g i).0
  unfolding register
  IsIssued-register g i match = elim (Bool-cases (contains c.pending_spawns g)) [
    | inr f ↦ rw (f, register) h
    | inl known ↦
        branch_core IsIssued (not (contains c.pending_spawns g)) _ _ (λ _. h)
          λ _.
            branch_core IsIssued c.closing _ _ (λ _. IsIssued-dropped c h g known)
              λ open_. IsIssued-fill (admitted c g i) (IsIssued-admitted c h g i open_ known match)
  ]

  IsIssued-spawned : (e : ControlEvent) → IsMatched EventKind.spawned e → IsIssued (spawned c e).0
  unfolding spawned
  IsIssued-spawned e match = elim (Option-cases e.gen) [
    | inl n ↦ rw (n, spawned) h
    | inr (g, p) ↦ elim (Option-cases e.identity) [
      | inl n ↦ rw (p, n, spawned) h
      | inr (i, q) ↦ rw (p, q, spawned) (IsIssued-register g i (match g i p q))
    ]
  ]

  IsIssued-spawn_failed : (e : ControlEvent) → IsIssued (spawn_failed c e).0
  unfolding spawn_failed
  IsIssued-spawn_failed e = elim (Option-cases e.gen) [
    | inl n ↦ rw (n, spawn_failed) h
    | inr (g, p) ↦
        rw (p, spawn_failed)
          (branch_core IsIssued (contains c.pending_spawns g) _ _ (IsIssued-dropped c h g) (λ _. h))
  ]

  IsIssued-ready : (e : ControlEvent) → IsIssued (ready c e).0
  unfolding ready
  IsIssued-ready e = elim (Option-cases (find c e.identity)) [
    | inl f ↦ rw (f, ready) h
    | inr (s, f) ↦
        rw (f, ready)
          (branch_core IsIssued (not (is_starting s.state)) _ _ (λ _. h)
            λ _.
              IsIssued-put c h s (record s { state = SkeletonState.idle })
                (find-some c e.identity s f).0 refl)
  ]

  IsIssued-result : (e : ControlEvent) → IsIssued (result c e).0
  unfolding result
  IsIssued-result e = elim (Option-cases (find c e.identity)) [
    | inl f ↦ rw (f, result) h
    | inr (s, f) ↦ elim (Option-cases e.job) [
      | inl n ↦ rw (f, n, result) h
      | inr (job, q) ↦
          rw (f, q, result)
            (branch_core IsIssued (not (is_running s.state)) _ _ (λ _. h)
              λ _.
                branch_core IsIssued (not (owns s (some job))) _ _ (λ _. h)
                  λ _.
                    IsIssued-put c h s (record s { state = SkeletonState.idle; job = none })
                      (find-some c e.identity s f).0 refl)
    ]
  ]

  IsIssued-lost : (e : ControlEvent) → IsIssued (lost c e).0
  unfolding lost
  IsIssued-lost e = elim (Option-cases (find c e.identity)) [
    | inl f ↦ rw (f, lost) h
    | inr (s, f) ↦ rw (f, lost) (IsIssued-remove c h s.identity.fd)
  ]

  IsIssued-submit : (e : ControlEvent) → IsIssued (submit c e).0
  unfolding submit
  IsIssued-submit e = elim (Option-cases e.job) [
    | inl n ↦ rw (n, submit) h
    | inr (job, q) ↦
        rw (q, submit)
          (branch_core IsIssued c.closing _ _ (λ _. h)
            λ _.
              branch_core IsIssued (contains (jobs c) job) _ _ (λ _. h)
                λ _. record {
                  fits = h.fits;
                  fresh = h.fresh;
                  issued = h.issued;
                  drained = h.drained;
                })
  ]

  IsIssued-close : IsIssued (close c).0
  unfolding close
  IsIssued-close =
      branch_core IsIssued c.closing _ _ (λ _. h)
        λ _.
          let same = SameGens-stop_slots c.slots in
          IsIssued-le c _ h (omega (arith, same.0))
            (λ g. omega (
              arith,
              ap (count g) same.1,
              count-append g c.pending_spawns (slot_gens (values c.slots)),
            ))
            refl refl (λ _. refl)

  pub IsIssued-dispatch : IsIssued (dispatch c).0
  unfolding dispatch
  IsIssued-dispatch =
      let same = SameGens-dispatch_slots c.slots c.queue in
      IsIssued-le c _ h (omega (arith, same.0))
        (λ g. omega (
          arith,
          ap (count g) same.1,
          count-append g c.pending_spawns (slot_gens (values (dispatch c).0.slots)),
          count-append g c.pending_spawns (slot_gens (values c.slots)),
        ))
        refl refl h.drained

pub IsIssued-handle :
    (k : EventKind) (c : ReaperCore) (e : ControlEvent)
    → IsIssued c
    → IsMatched k e
    → IsIssued (handle k c e).0
unfolding handle deadline
IsIssued-handle EventKind.start c e h match = IsIssued-fill c h
IsIssued-handle EventKind.recover c e h match = IsIssued-fill c h
IsIssued-handle EventKind.spawned c e h match = IsIssued-spawned c h e match
IsIssued-handle EventKind.spawn_failed c e h match = IsIssued-spawn_failed c h e
IsIssued-handle EventKind.ready c e h match = IsIssued-ready c h e
IsIssued-handle EventKind.submit c e h match = IsIssued-submit c h e
IsIssued-handle EventKind.result c e h match = IsIssued-result c h e
IsIssued-handle EventKind.eof c e h match = IsIssued-lost c h e
IsIssued-handle EventKind.send_failed c e h match = IsIssued-lost c h e
IsIssued-handle EventKind.close c e h match = IsIssued-close c h
IsIssued-handle EventKind.deadline c e h match =
    branch_core IsIssued (not c.closing) _ _ (λ _. h) (λ _. h)
