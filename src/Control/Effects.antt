-- ===== src/Control/Effects.antt =====
-- The jobs that a list of effects of reaper/control.py ends, and the loops of its methods.
use reaper.Base.{
  ℕ, ◌+◌, String, ◌≡◌, refl, ap, false, Option, none, some, List, [], ◌∷◌, ◌++◌, arith, count,
  count-append, All, string_eq, nat_eq, one, ◌==◌, length, Bool-cases, inl, inr, truthy,
}
use reaper.Base.Dict.{Dict, total, values}
use reaper.Control.Types.{EffectKind, FailureReason, ControlEffect, ControlSlot}
use reaper.Control.Apply.{slot_gens}
use reaper.Control.Core.{
  fail_jobs, slot_job, slot_jobs, stop_slots, dispatch_slots, kill_slots, is_running, is_idle,
}

abbrev pub listed : Option String → List String
listed none = []
listed (some job) = job ∷ []

-- The job that an effect answers, with a result or an error.
abbrev pub ended_job : ControlEffect → List String
ended_job e = elim e.kind [
  | EffectKind.resolve ↦ listed e.job
  | EffectKind.fail ↦ listed e.job
  | _ ↦ []
]

abbrev pub ended : List ControlEffect → List String
ended [] = []
ended (e ∷ es) = ended_job e ++ ended es

pub count-ended-append :
    (j : String) (es fs : List ControlEffect)
    → count j (ended (es ++ fs)) ≡ count j (ended es) + count j (ended fs)
count-ended-append j [] fs = omega arith
count-ended-append j (e ∷ es) fs = omega (
  arith,
  count-append j (ended_job e) (ended (es ++ fs)),
  count-append j (ended_job e) (ended es),
  count-ended-append j es fs,
)

pub ended-fail_jobs : (jobs : List String) (r : FailureReason) → ended (fail_jobs jobs r) ≡ jobs
ended-fail_jobs [] r = refl
ended-fail_jobs (j ∷ jobs) r = ap (◌∷◌ j) (ended-fail_jobs jobs r)

pub ended-kill_slots : (slots : List ControlSlot) → ended (kill_slots slots) ≡ []
unfolding kill_slots
ended-kill_slots [] = refl
ended-kill_slots (s ∷ slots) = ended-kill_slots slots

pub count-slot_jobs :
    (j : String) (d : Dict ℕ ControlSlot)
    → count j (slot_jobs (values d)) ≡ total (λ s. count j (slot_job s)) d
count-slot_jobs j [] = refl
count-slot_jobs j ((fd, s) ∷ d) =
    omega (arith, count-append j (slot_job s) (slot_jobs (values d)), count-slot_jobs j d)

pub count-slot_gens :
    (g : ℕ) (d : Dict ℕ ControlSlot)
    → count g (slot_gens (values d)) ≡ total (λ s. one (s.identity.gen == g)) d
count-slot_gens g [] = refl
count-slot_gens g ((fd, s) ∷ d) = omega (arith, count-slot_gens g d)

pub length-total : (d : Dict ℕ ControlSlot) → length d ≡ total (λ s. 1) d
length-total [] = refl
length-total ((fd, s) ∷ d) = omega (arith, length-total d)

-- A slot's own facts: its key is its descriptor, and it holds a job exactly when it runs.
pub record IsSound (entry : ℕ × ControlSlot) : Type 0 where
  pub keyed : entry.0 ≡ entry.1.identity.fd
  pub busy : truthy entry.1.job ≡ is_running entry.1.state

pub idle_job : (s : ControlSlot) → truthy s.job ≡ false → slot_job s ≡ []
idle_job s h = ground arith

pub count-stop_slots :
    (j : String) (d : Dict ℕ ControlSlot)
    → count j (ended (stop_slots d).1) ≡ count j (slot_jobs (values d))
unfolding stop_slots
count-stop_slots j [] = refl
count-stop_slots j ((fd, s) ∷ d) = omega (
  arith,
  count-append j (slot_job s) (slot_jobs (values d)),
  count-ended-append j (fail_jobs (slot_job s) FailureReason.closed) (_ ∷ (stop_slots d).1),
  ap (count j) (ended-fail_jobs (slot_job s) FailureReason.closed),
  count-stop_slots j d,
)

pub slot_jobs-stop_slots : (d : Dict ℕ ControlSlot) → slot_jobs (values (stop_slots d).0) ≡ []
unfolding stop_slots
slot_jobs-stop_slots [] = refl
slot_jobs-stop_slots ((fd, s) ∷ d) = slot_jobs-stop_slots d

-- A dispatch moves jobs from the queue to idle slots and ends none.
pub count-dispatch_slots :
    (j : String) (d : Dict ℕ ControlSlot) (queue : List String)
    → All IsSound d
    → All (λ job. (job == "") ≡ false) queue
    → count j (dispatch_slots d queue).1 + count j (slot_jobs (values (dispatch_slots d queue).0))
      ≡ count j queue + count j (slot_jobs (values d))
unfolding dispatch_slots
count-dispatch_slots j d [] sound named = ground arith
count-dispatch_slots j [] (job ∷ queue) sound named = refl
count-dispatch_slots j ((fd, s) ∷ d) (job ∷ queue) sound named =
    elim (Bool-cases (is_idle s.state)) [
      | inl idle ↦
          rw (idle, dispatch_slots, named.0, idle_job s (ground (arith, sound.0.busy)))
            (omega (arith, count-dispatch_slots j d queue sound.1 named.1))
      | inr busy ↦
          rw (busy, dispatch_slots)
            (omega (
              arith,
              count-append j (slot_job s) (slot_jobs (values d)),
              count-append j (slot_job s) (slot_jobs (values (dispatch_slots d (job ∷ queue)).0)),
              count-dispatch_slots j d (job ∷ queue) sound.1 named,
            ))
    ]

pub ended-dispatch_slots :
    (d : Dict ℕ ControlSlot) (queue : List String) → ended (dispatch_slots d queue).2 ≡ []
unfolding dispatch_slots
ended-dispatch_slots d [] = ground arith
ended-dispatch_slots [] (job ∷ queue) = refl
ended-dispatch_slots ((fd, s) ∷ d) (job ∷ queue) =
    ground (arith, ended-dispatch_slots d queue, ended-dispatch_slots d (job ∷ queue))
