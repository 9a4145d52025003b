-- ===== src/Control/Jobs.antt =====
-- Where the jobs of ReaperCore in reaper/control.py go: no method loses one or answers one twice.
use reaper.Base.{
  ℕ, suc, zero, ◌+◌, String, ◌≡◌, refl, ap, Bool, true, false, Option, none, some, List, [], ◌∷◌,
  ◌++◌, arith, count, count-append, contains, All, string_eq, nat_eq, Bool-cases, Option-cases, inl,
  inr, truthy, not, if◌then◌else◌, ◌&&◌, ◌||◌, ltb,
}
use reaper.Base.Dict.{total, values, get, remove, weight_of, All-get, total-put, total-remove}
use reaper.Control.Types.{
  SkeletonId, SkeletonState, EventKind, ControlSlot, ControlEvent, ReaperCore, FailureReason,
}
use reaper.Control.Core.{
  Step, slot_job, slot_jobs, jobs, find, fill_loop, fill, admitted, register, spawned, spawn_failed,
  ready, submit, result, lost, close, deadline, dispatch, is_running, owns, answer, discard,
  fail_jobs, stop_slots,
}
use reaper.Control.Apply.{handle, transition}
use reaper.Control.Effects.{
  IsSound, ended, count-ended-append, ended-fail_jobs, ended-kill_slots, count-stop_slots,
  slot_jobs-stop_slots, count-dispatch_slots, ended-dispatch_slots,
}
use reaper.Control.Invariant.{IsNamed, find-some, jobs-replace, count-jobs}

-- The jobs of a core together with those that the effects answer.
abbrev pub accounted : String → Step → ℕ
accounted j s = count j (jobs s.0) + count j (ended s.1)

pub jobs-fill_loop :
    (j : String) (fuel total : ℕ) (c : ReaperCore)
    → accounted j (fill_loop fuel total c) ≡ count j (jobs c)
unfolding fill_loop
jobs-fill_loop j zero total c = omega arith
jobs-fill_loop j (suc fuel) total c = elim (Bool-cases (not c.closing && ltb total c.target)) [
  | inl more ↦ rw (more, fill_loop) (jobs-fill_loop j fuel (suc total) _)
  | inr done ↦ rw (done, fill_loop) (omega arith)
]

jobs-fill : (j : String) (c : ReaperCore) → accounted j (fill c) ≡ count j (jobs c)
unfolding fill
jobs-fill j c = jobs-fill_loop j c.target _ c

jobs-ready :
    (j : String) (c : ReaperCore) (e : ControlEvent) → accounted j (ready c e) ≡ count j (jobs c)
unfolding ready
jobs-ready j c e = elim (Option-cases (find c e.identity)) [
  | inl f ↦ rw (f, ready) (omega arith)
  | inr (s, f) ↦ ground (
    arith,
    jobs-replace c s (record s { state = SkeletonState.idle }) (find-some c e.identity s f).0 refl
        j,
  )
]

-- A slot that `find` gives holds a job exactly when it runs.
found-busy :
    (c : ReaperCore) (i : Option SkeletonId) (s : ControlSlot)
    → All IsSound c.slots
    → find c i ≡ some s
    → truthy s.job ≡ is_running s.state
found-busy c i s sound f =
    (All-get IsSound c.slots s.identity.fd s sound (find-some c i s f).0).busy

owns→eq : (s : ControlSlot) (job : String) → owns s (some job) ≡ true → s.job ≡ some job
owns→eq s job h = elim (Option-cases s.job) [
  | inl e ↦ ground arith
  | inr (held, e) ↦ ground (arith, string_eq.agrees held job)
]

slot_job-held :
    (s : ControlSlot) (job : String)
    → truthy s.job ≡ true
    → s.job ≡ some job
    → slot_job s ≡ job ∷ []
slot_job-held s job t h = ground arith

ended-answer : (ok : Bool) (job : String) → ended (answer ok job ∷ []) ≡ job ∷ []
ended-answer true job = refl
ended-answer false job = refl

jobs-result :
    (j : String) (c : ReaperCore) (e : ControlEvent)
    → All IsSound c.slots
    → accounted j (result c e) ≡ count j (jobs c)
unfolding result
jobs-result j c e sound = elim (Option-cases (find c e.identity)) [
  | inl f ↦ rw (f, result) (omega arith)
  | inr (s, f) ↦ elim (Option-cases e.job) [
    | inl n ↦ rw (f, n, result) (omega arith)
    | inr (job, h) ↦ ground (
      arith,
      jobs-replace c s (record s { state = SkeletonState.idle; job = none })
          (find-some c e.identity s f).0 refl j,
      owns→eq s job,
      slot_job-held s job,
      found-busy c e.identity s sound f,
      ap (count j) (ended-answer e.ok job),
    )
  ]
]

jobs-lost :
    (j : String) (c : ReaperCore) (e : ControlEvent) → accounted j (lost c e) ≡ count j (jobs c)
unfolding lost discard
jobs-lost j c e = elim (Option-cases (find c e.identity)) [
  | inl f ↦ rw (f, lost) (omega arith)
  | inr (s, f) ↦
      rw (f, lost)
        (omega (
          arith,
          ap (count j) (ended-fail_jobs (slot_job s) FailureReason.worker_died),
          count-jobs j c,
          count-jobs j (record c { slots = remove c.slots s.identity.fd }),
          total-remove (λ x. count j (slot_job x)) c.slots s.identity.fd,
          ap (weight_of (λ x. count j (slot_job x))) (find-some c e.identity s f).0,
        ))
]

jobs-close : (j : String) (c : ReaperCore) → accounted j (close c) ≡ count j (jobs c)
unfolding close
jobs-close j c = elim (Bool-cases c.closing) [
  | inl shut ↦ rw (shut, close) (omega arith)
  | inr open_ ↦
      rw (open_, close)
        (omega (
          arith,
          count-append j c.queue (slot_jobs (values c.slots)),
          ap (count j) (slot_jobs-stop_slots c.slots),
          count-ended-append j (fail_jobs c.queue FailureReason.closed) (stop_slots c.slots).1,
          ap (count j) (ended-fail_jobs c.queue FailureReason.closed),
          count-stop_slots j c.slots,
        ))
]

jobs-deadline : (j : String) (c : ReaperCore) → accounted j (deadline c) ≡ count j (jobs c)
unfolding deadline
jobs-deadline j c = ground (arith, ended-kill_slots (values c.slots))

jobs-spawn_failed :
    (j : String) (c : ReaperCore) (e : ControlEvent)
    → accounted j (spawn_failed c e) ≡ count j (jobs c)
unfolding spawn_failed
jobs-spawn_failed j c e = ground arith

jobs-admitted :
    (j : String) (c : ReaperCore) (gen : ℕ) (i : SkeletonId)
    → get c.slots i.fd ≡ none
    → count j (jobs (admitted c gen i)) ≡ count j (jobs c)
jobs-admitted j c gen i free = omega (
  arith,
  count-jobs j c,
  count-jobs j (admitted c gen i),
  total-put (λ x. count j (slot_job x)) c.slots i.fd
      (record { identity = i; state = SkeletonState.starting; job = none }),
  ap (weight_of (λ x. count j (slot_job x))) free,
)

jobs-register :
    (j : String) (c : ReaperCore) (gen : ℕ) (i : SkeletonId)
    → get c.slots i.fd ≡ none
    → accounted j (register c gen i) ≡ count j (jobs c)
unfolding register
jobs-register j c gen i free =
    ground (arith, jobs-fill j (admitted c gen i), jobs-admitted j c gen i free)

-- A job that SUBMIT queues: one that the core does not know yet, while the pool is open.
abbrev pub accepted : EventKind → ReaperCore → ControlEvent → List String
accepted EventKind.submit c e = elim e.job [
  | none ↦ []
  | some job ↦ if c.closing || contains (jobs c) job then [] else job ∷ []
]
accepted k c e = []

jobs-submit :
    (j : String) (c : ReaperCore) (e : ControlEvent)
    → accounted j (submit c e) ≡ count j (jobs c) + count j (accepted EventKind.submit c e)
unfolding submit
jobs-submit j c e = elim (Option-cases e.job) [
  | inl n ↦ rw (n, submit, accepted) (omega arith)
  | inr (job, h) ↦ ground (
    arith,
    count-append j (c.queue ++ job ∷ []) (slot_jobs (values c.slots)),
    count-append j c.queue (slot_jobs (values c.slots)),
    count-append j c.queue (job ∷ []),
  )
]

-- The descriptor of a spawned child is free: the table holds only open sockets.
abbrev pub IsFree : EventKind → ReaperCore → ControlEvent → Type 0
IsFree EventKind.spawned c e = (i : SkeletonId) → e.identity ≡ some i → get c.slots i.fd ≡ none
IsFree k c e = Unit

jobs-spawned :
    (j : String) (c : ReaperCore) (e : ControlEvent)
    → IsFree EventKind.spawned c e
    → accounted j (spawned c e) ≡ count j (jobs c)
unfolding spawned
jobs-spawned j c e free = elim (Option-cases e.gen) [
  | inl n ↦ rw (n, spawned) (omega arith)
  | inr (g, h) ↦ elim (Option-cases e.identity) [
    | inl n ↦ rw (h, n, spawned) (omega arith)
    | inr (i, p) ↦ rw (h, p, spawned) (jobs-register j c g i (free i p))
  ]
]

jobs-handle :
    (j : String) (k : EventKind) (c : ReaperCore) (e : ControlEvent)
    → All IsSound c.slots
    → IsFree k c e
    → accounted j (handle k c e) ≡ count j (jobs c) + count j (accepted k c e)
unfolding handle
jobs-handle j EventKind.start c e sound free = omega (arith, jobs-fill j c)
jobs-handle j EventKind.recover c e sound free = omega (arith, jobs-fill j c)
jobs-handle j EventKind.spawned c e sound free = omega (arith, jobs-spawned j c e free)
jobs-handle j EventKind.spawn_failed c e sound free = omega (arith, jobs-spawn_failed j c e)
jobs-handle j EventKind.ready c e sound free = omega (arith, jobs-ready j c e)
jobs-handle j EventKind.submit c e sound free = jobs-submit j c e
jobs-handle j EventKind.result c e sound free = omega (arith, jobs-result j c e sound)
jobs-handle j EventKind.eof c e sound free = omega (arith, jobs-lost j c e)
jobs-handle j EventKind.send_failed c e sound free = omega (arith, jobs-lost j c e)
jobs-handle j EventKind.close c e sound free = omega (arith, jobs-close j c)
jobs-handle j EventKind.deadline c e sound free = omega (arith, jobs-deadline j c)

jobs-dispatch :
    (j : String) (c : ReaperCore)
    → All IsSound c.slots
    → All IsNamed c.queue
    → accounted j (dispatch c) ≡ count j (jobs c)
unfolding dispatch
jobs-dispatch j c sound named = omega (
  arith,
  count-append j c.queue (slot_jobs (values c.slots)),
  count-append j (dispatch c).0.queue (slot_jobs (values (dispatch c).0.slots)),
  ap (count j) (ended-dispatch_slots c.slots c.queue),
  count-dispatch_slots j c.slots c.queue sound named,
)

-- Every job of the core, and every job just accepted, is afterwards either still in the core or
-- answered by exactly one effect: none is lost and none is answered twice.
pub transition-jobs :
    (j : String) (c : ReaperCore) (e : ControlEvent)
    → All IsSound c.slots
    → IsFree e.kind c e
    → All IsSound (handle e.kind c e).0.slots
    → All IsNamed (handle e.kind c e).0.queue
    → accounted j (transition c e) ≡ count j (jobs c) + count j (accepted e.kind c e)
unfolding transition
transition-jobs j c e sound free sound' named' = omega (
  arith,
  count-ended-append j (handle e.kind c e).1 (dispatch (handle e.kind c e).0).1,
  jobs-handle j e.kind c e sound free,
  jobs-dispatch j (handle e.kind c e).0 sound' named',
)
