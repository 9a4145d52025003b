-- ===== src/Control/Drops.antt =====
-- The children that enter and leave the table of ReaperCore in reaper/control.py: each one that leaves
-- is dropped by one effect.
use reaper.Base.{
  ℕ, suc, zero, ◌+◌, String, ◌≡◌, refl, ap, Bool, true, false, Option, none, some, List, [], ◌∷◌,
  ◌++◌, arith, count, count-append, contains, one, string_eq, nat_eq, ◌==◌, Bool-cases,
  Option-cases, inl, inr, not, ◌&&◌, ltb, if_elim,
}
use reaper.Base.Dict.{Dict, total, values, get, put, weight_of, total-put, total-remove}
use reaper.Control.Types.{
  SkeletonId, SkeletonState, EventKind, EffectKind, FailureReason, ControlSlot, ControlEvent,
  ControlEffect, ReaperCore,
}
use reaper.Control.Core.{
  Step, identity_eq, slot_job, find, fill_loop, fill, admitted, register, spawned, spawn_failed,
  ready, submit, result, lost, close, deadline, dispatch, dispatch_slots, is_starting, is_running,
  is_idle, owns, answer, discard, fail_jobs, stop_slots, kill_slots,
}
use reaper.Control.Apply.{handle, transition}
use reaper.Control.Invariant.{find-some, replace-total}
use reaper.Control.Jobs.{IsFree}

abbrev pub named_id : Option SkeletonId → List SkeletonId
named_id none = []
named_id (some i) = i ∷ []

-- The identities that a list of effects drops.
abbrev pub drop_of : ControlEffect → List SkeletonId
drop_of e = elim e.kind [ EffectKind.drop ↦ named_id e.identity | _ ↦ [] ]

abbrev pub dropped : List ControlEffect → List SkeletonId
dropped [] = []
dropped (e ∷ es) = drop_of e ++ dropped es

-- How often an identity stands in the core's table.
abbrev pub held : SkeletonId → ReaperCore → ℕ
held i c = total (λ s. one (s.identity == i)) c.slots

-- The identity that a SPAWNED event brings.
abbrev pub arriving : EventKind → ControlEvent → List SkeletonId
arriving EventKind.spawned e = elim e.gen [ none ↦ [] | some gen ↦ named_id e.identity ]
arriving k e = []

abbrev pub tally : SkeletonId → Step → ℕ
tally i s = held i s.0 + count i (dropped s.1)

pub count-dropped-append :
    (i : SkeletonId) (es fs : List ControlEffect)
    → count i (dropped (es ++ fs)) ≡ count i (dropped es) + count i (dropped fs)
count-dropped-append i [] fs = omega arith
count-dropped-append i (e ∷ es) fs = omega (
  arith,
  count-append i (drop_of e) (dropped (es ++ fs)),
  count-append i (drop_of e) (dropped es),
  count-dropped-append i es fs,
)

dropped-fail_jobs : (xs : List String) (r : FailureReason) → dropped (fail_jobs xs r) ≡ []
dropped-fail_jobs [] r = refl
dropped-fail_jobs (x ∷ xs) r = dropped-fail_jobs xs r

dropped-kill_slots : (xs : List ControlSlot) → dropped (kill_slots xs) ≡ []
unfolding kill_slots
dropped-kill_slots [] = refl
dropped-kill_slots (x ∷ xs) = dropped-kill_slots xs

tally-fill_loop :
    (i : SkeletonId) (fuel n : ℕ) (c : ReaperCore) → tally i (fill_loop fuel n c) ≡ held i c
unfolding fill_loop
tally-fill_loop i zero n c = omega arith
tally-fill_loop i (suc fuel) n c = elim (Bool-cases (not c.closing && ltb n c.target)) [
  | inl more ↦ rw (more, fill_loop) (tally-fill_loop i fuel (suc n) _)
  | inr done ↦ rw (done, fill_loop) (omega arith)
]

tally-fill : (i : SkeletonId) (c : ReaperCore) → tally i (fill c) ≡ held i c
unfolding fill
tally-fill i c = tally-fill_loop i c.target _ c

-- A slot written back under its own identity.
held-replace :
    (i : SkeletonId) (c : ReaperCore) (e : Option SkeletonId) (s t : ControlSlot)
    → find c e ≡ some s
    → t.identity ≡ s.identity
    → held i (record c { slots = put c.slots s.identity.fd t }) ≡ held i c
held-replace i c e s t f kept = omega (
  arith,
  replace-total c s t (find-some c e s f).0 kept (λ x. one (x.identity == i)),
  ap (λ (a : SkeletonId). one (a == i)) kept,
)

tally-ready : (i : SkeletonId) (c : ReaperCore) (e : ControlEvent) → tally i (ready c e) ≡ held i c
unfolding ready
tally-ready i c e = elim (Option-cases (find c e.identity)) [
  | inl f ↦ rw (f, ready) (omega arith)
  | inr (s, f) ↦
      let kept = held-replace i c e.identity s (record s { state = SkeletonState.idle }) f refl in
      rw (f, ready)
        (if_elim (λ x. tally i x ≡ held i c) (not (is_starting s.state)) _ _ (λ _. omega arith)
          (λ _. omega (arith, kept)))
]

dropped-answer : (ok : Bool) (job : String) → dropped (answer ok job ∷ []) ≡ []
dropped-answer true job = refl
dropped-answer false job = refl

tally-result :
    (i : SkeletonId) (c : ReaperCore) (e : ControlEvent) → tally i (result c e) ≡ held i c
unfolding result
tally-result i c e = elim (Option-cases (find c e.identity)) [
  | inl f ↦ rw (f, result) (omega arith)
  | inr (s, f) ↦ elim (Option-cases e.job) [
    | inl n ↦ rw (f, n, result) (omega arith)
    | inr (job, q) ↦
        let kept =
          held-replace i c e.identity s (record s { state = SkeletonState.idle; job = none }) f
            refl in
        rw (f, q, result)
          (if_elim (λ x. tally i x ≡ held i c) (not (is_running s.state)) _ _ (λ _. omega arith)
            λ _.
              if_elim (λ x. tally i x ≡ held i c) (not (owns s (some job))) _ _ (λ _. omega arith)
                (λ _. omega (arith, kept, ap (count i) (dropped-answer e.ok job))))
  ]
]

tally-lost : (i : SkeletonId) (c : ReaperCore) (e : ControlEvent) → tally i (lost c e) ≡ held i c
unfolding lost discard
tally-lost i c e = elim (Option-cases (find c e.identity)) [
  | inl f ↦ rw (f, lost) (omega arith)
  | inr (s, f) ↦
      rw (f, lost)
        (omega (
          arith,
          ap (count i) (dropped-fail_jobs (slot_job s) FailureReason.worker_died),
          total-remove (λ x. one (x.identity == i)) c.slots s.identity.fd,
          ap (weight_of (λ (x : ControlSlot). one (x.identity == i)))
              (find-some c e.identity s f).0,
        ))
]

tally-stop_slots :
    (i : SkeletonId) (d : Dict ℕ ControlSlot)
    → total (λ s. one (s.identity == i)) (stop_slots d).0 + count i (dropped (stop_slots d).1)
      ≡ total (λ s. one (s.identity == i)) d
unfolding stop_slots
tally-stop_slots i [] = refl
tally-stop_slots i ((fd, s) ∷ d) = omega (
  arith,
  count-dropped-append i (fail_jobs (slot_job s) FailureReason.closed) (_ ∷ (stop_slots d).1),
  ap (count i) (dropped-fail_jobs (slot_job s) FailureReason.closed),
  tally-stop_slots i d,
)

tally-close : (i : SkeletonId) (c : ReaperCore) → tally i (close c) ≡ held i c
unfolding close
tally-close i c = elim (Bool-cases c.closing) [
  | inl shut ↦ rw (shut, close) (omega arith)
  | inr open_ ↦
      rw (open_, close)
        (omega (
          arith,
          count-dropped-append i (fail_jobs c.queue FailureReason.closed) (stop_slots c.slots).1,
          ap (count i) (dropped-fail_jobs c.queue FailureReason.closed),
          tally-stop_slots i c.slots,
        ))
]

tally-deadline : (i : SkeletonId) (c : ReaperCore) → tally i (deadline c) ≡ held i c
unfolding deadline
tally-deadline i c = ground (arith, dropped-kill_slots (values c.slots))

tally-register :
    (i : SkeletonId) (c : ReaperCore) (gen : ℕ) (a : SkeletonId)
    → get c.slots a.fd ≡ none
    → tally i (register c gen a) ≡ held i c + count i (a ∷ [])
unfolding register discard
tally-register i c gen a free =
    if_elim (λ x. tally i x ≡ held i c + count i (a ∷ [])) (not (contains c.pending_spawns gen)) _ _
      (λ _. omega arith)
      λ _.
        if_elim (λ x. tally i x ≡ held i c + count i (a ∷ [])) c.closing _ _ (λ _. omega arith)
          λ _. omega (
            arith,
            tally-fill i (admitted c gen a),
            total-put (λ x. one (x.identity == i)) c.slots a.fd
                (record { identity = a; state = SkeletonState.starting; job = none }),
            ap (weight_of (λ (x : ControlSlot). one (x.identity == i))) free,
          )

tally-spawned :
    (i : SkeletonId) (c : ReaperCore) (e : ControlEvent)
    → IsFree EventKind.spawned c e
    → tally i (spawned c e) ≡ held i c + count i (arriving EventKind.spawned e)
unfolding spawned
tally-spawned i c e free = elim (Option-cases e.gen) [
  | inl n ↦ rw (n, spawned, arriving) (omega arith)
  | inr (g, h) ↦ elim (Option-cases e.identity) [
    | inl n ↦ rw (h, n, spawned, arriving) (omega arith)
    | inr (a, p) ↦ rw (h, p, spawned, arriving) (tally-register i c g a (free a p))
  ]
]

tally-handle :
    (i : SkeletonId) (k : EventKind) (c : ReaperCore) (e : ControlEvent)
    → IsFree k c e
    → tally i (handle k c e) ≡ held i c + count i (arriving k e)
unfolding handle spawn_failed submit
tally-handle i EventKind.start c e free = omega (arith, tally-fill i c)
tally-handle i EventKind.recover c e free = omega (arith, tally-fill i c)
tally-handle i EventKind.spawned c e free = tally-spawned i c e free
tally-handle i EventKind.spawn_failed c e free = ground arith
tally-handle i EventKind.ready c e free = omega (arith, tally-ready i c e)
tally-handle i EventKind.submit c e free = ground arith
tally-handle i EventKind.result c e free = omega (arith, tally-result i c e)
tally-handle i EventKind.eof c e free = omega (arith, tally-lost i c e)
tally-handle i EventKind.send_failed c e free = omega (arith, tally-lost i c e)
tally-handle i EventKind.close c e free = omega (arith, tally-close i c)
tally-handle i EventKind.deadline c e free = omega (arith, tally-deadline i c)

tally-dispatch_slots :
    (i : SkeletonId) (d : Dict ℕ ControlSlot) (queue : List String)
    → total (λ s. one (s.identity == i)) (dispatch_slots d queue).0
        + count i (dropped (dispatch_slots d queue).2)
      ≡ total (λ s. one (s.identity == i)) d
unfolding dispatch_slots
tally-dispatch_slots i [] [] = refl
tally-dispatch_slots i (x ∷ d) [] = omega arith
tally-dispatch_slots i [] (job ∷ queue) = refl
tally-dispatch_slots i ((fd, s) ∷ d) (job ∷ queue) = elim (Bool-cases (is_idle s.state)) [
  | inl idle ↦ rw (idle, dispatch_slots) (omega (arith, tally-dispatch_slots i d queue))
  | inr other ↦ rw (other, dispatch_slots) (omega (arith, tally-dispatch_slots i d (job ∷ queue)))
]

-- Every child that the core held or that has just arrived is afterwards either in its table or dropped by
-- one effect, when the descriptor of an arriving one is free.
pub transition-tally :
    (i : SkeletonId) (c : ReaperCore) (e : ControlEvent)
    → IsFree e.kind c e
    → tally i (transition c e) ≡ held i c + count i (arriving e.kind e)
unfolding transition dispatch
transition-tally i c e free = omega (
  arith,
  count-dropped-append i (handle e.kind c e).1 (dispatch (handle e.kind c e).0).1,
  tally-handle i e.kind c e free,
  tally-dispatch_slots i (handle e.kind c e).0.slots (handle e.kind c e).0.queue,
)
