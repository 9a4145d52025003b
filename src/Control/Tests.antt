-- ===== src/Control/Tests.antt =====
-- Runs of reaper/control.py on small pools, and the theorems at concrete inputs.
use mathlib.Core.Option.{some-injective}
use mathlib.Core.Bool.{false≢true}
use reaper.Base.{
  ◌+◌, ◌≤◌, String, ◌≡◌, refl, subst, ap, ◌==◌, true, false, not, ◌&&◌, none, some, [], ◌∷◌, ◌++◌,
  arith, count, string_eq, ◌-◌,
}
use reaper.Base.Dict.{values}
use reaper.Control.Types.{SkeletonState, SkeletonId, EventKind, ControlEvent, ReaperCore}
use reaper.Control.Core.{
  init, jobs, fill, find, result, dispatch, dispatch_slots, resolve_of, run_of, empty_core,
  identity_eq,
}
use reaper.Control.Apply.{transition, apply, applied, handle, is_empty}
use reaper.Control.Effects.{ended}
use reaper.Control.Invariant.{IsNamed}
use reaper.Control.Jobs.{accounted, accepted}
use reaper.Control.Safety.{IsValid, IsDelivered, apply-IsValid, transition-conserves}
use reaper.Control.Histories.{begin, next, submitted, Reached-answered}
use reaper.Control.Dispatch.{any_idle, transition-busy}
use reaper.Control.Drops.{tally, held, arriving, transition-tally}
use reaper.Control.Capacity.{live, spawns, fill_lem}
use reaper.Control.Closing.{IsSilent, transition-IsSilent}

abbrev event : EventKind → ControlEvent
event k = record { kind = k; identity = none; gen = none; job = none; ok = true }

abbrev first : SkeletonId
first = record { fd = 7; gen = 1 }

abbrev second : SkeletonId
second = record { fd = 8; gen = 2 }

-- Two slots, the first running "a", and "b" waiting behind a slot that is not ready.
abbrev busy : ReaperCore
busy = record {
  target = 3;
  closing = false;
  slots =
      (7, record { identity = first; state = SkeletonState.running; job = some "a" })
      ∷ (8, record { identity = second; state = SkeletonState.starting; job = none })
      ∷ [];
  pending_spawns = [];
  queue = "b" ∷ [];
  done = [];
  failed = [];
  next_gen = 2;
}

abbrev answered : ControlEvent
answered = record (event EventKind.result) { identity = some first; job = some "a" }

abbrev asked : ControlEvent
asked = record (event EventKind.submit) { job = some "a" }

-- The slot that answers "a" takes "b" at once.
result_then_run : (transition busy answered).1 ≡ resolve_of "a" ∷ run_of first "b" ∷ []
unfolding transition handle result find dispatch dispatch_slots
result_then_run = refl

b≢a : ◌≡◌ {A = String} "b" "a" → ⊥
b≢a e = false≢true (ap (λ (s : String). s == "a") e)

busy-IsValid : IsValid busy
busy-IsValid = record {
  orderly = record {
    sound = (record { keyed = refl; busy = refl }, (record { keyed = refl; busy = refl }, tt));
    named = (refl, tt);
  };
  issued = record {
    fits = omega arith;
    fresh = λ g. ground arith;
    issued = λ g p. ground arith;
    drained = λ p. cc;
  };
  once = λ j. ground (arith, string_eq.agrees "b" j, string_eq.agrees "a" j, b≢a);
}

result-IsDelivered : IsDelivered busy answered
result-IsDelivered = record { free = tt; named = tt; matched = tt }

apply-IsValid_example :
    (apply busy answered ≡ applied (transition busy answered).0 (transition busy answered).1)
    × IsValid (transition busy answered).0
apply-IsValid_example = apply-IsValid busy answered busy-IsValid result-IsDelivered

transition-conserves_example :
    accounted "a" (transition busy answered)
    ≡ count "a" (jobs busy) + count "a" (accepted EventKind.result busy answered)
transition-conserves_example =
    transition-conserves "a" busy answered busy-IsValid result-IsDelivered

asked-IsDelivered : IsDelivered (empty_core 2) asked
asked-IsDelivered = record {
  free = tt;
  named = λ job p. subst IsNamed (some-injective _ _ p) refl;
  matched = tt;
}

begun : init 2 ≡ some (empty_core 2)
unfolding init
begun = refl

Reached-answered_example :
    count "a" (ended ([] ++ (transition (empty_core 2) asked).1))
      + count "a" (jobs (transition (empty_core 2) asked).0)
    ≤ count "a" (submitted (asked ∷ []))
Reached-answered_example =
    Reached-answered {n = 2} (next asked (begin (empty_core 2) begun) asked-IsDelivered) "a"

transition-busy_example :
    (any_idle (values (transition busy answered).0.slots)
      && not (is_empty (transition busy answered).0.queue))
    ≡ false
transition-busy_example = transition-busy busy answered

fill_lem_example : (live (fill busy).0 ≡ 3) × ((fill busy).1 ≡ spawns 2 (3 - live busy))
fill_lem_example = fill_lem busy refl (omega arith)

abbrev shut : ReaperCore
shut = record busy {
  closing = true;
  queue = [];
  slots = (7, record { identity = first; state = SkeletonState.stopping; job = none }) ∷ [];
}

transition-IsSilent_example : IsSilent (transition shut (event EventKind.recover))
transition-IsSilent_example =
    transition-IsSilent shut (event EventKind.recover)
      (record { closing = refl; queue = refl; slots = (refl, tt) })

-- The slot that runs "a" is lost: it leaves the table and is dropped once.
transition-tally_example :
    tally first (transition busy (record (event EventKind.eof) { identity = some first }))
    ≡ held first busy
      + count first
          (arriving EventKind.eof (record (event EventKind.eof) { identity = some first }))
transition-tally_example =
    transition-tally first busy (record (event EventKind.eof) { identity = some first }) tt
