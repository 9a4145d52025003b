-- ===== src/Control/Histories.antt =====
-- Histories of ReaperCore in reaper/control.py: a new core, then any delivered events.
use reaper.Base.{
  ℕ, suc, zero, ◌+◌, ◌≤◌, String, ◌≡◌, refl, ap, subst, some, List, [], ◌∷◌, ◌++◌, arith, count,
  count-append, string_eq, Option-cases, inl, inr, if_elim, ◌||◌, contains,
}
use reaper.Control.Types.{EventKind, ControlEvent, ControlEffect, ReaperCore}
use reaper.Control.Core.{init, empty_core, jobs}
use reaper.Control.Apply.{transition}
use reaper.Control.Effects.{ended, count-ended-append, listed}
use reaper.Control.Slots.{IsOrderly-handle}
use reaper.Control.Jobs.{accepted, transition-jobs}
use reaper.Control.Safety.{IsValid, IsDelivered, apply-IsValid}

-- The job that an event asks for.
abbrev pub requested : EventKind → ControlEvent → List String
requested EventKind.submit e = listed e.job
requested k e = []

abbrev pub submitted : List ControlEvent → List String
submitted [] = []
submitted (e ∷ es) = requested e.kind e ++ submitted es

-- `events`, newest first, took a core for `n` slots to `c`, with the effects `fx` in order.
pub data Reached (n : ℕ) : List ControlEvent → ReaperCore → List ControlEffect → Type 0 where
  begin : (c : ReaperCore) → init n ≡ some c → Reached n [] c []
  next :
      {es : List ControlEvent} {c : ReaperCore} {fx : List ControlEffect} (e : ControlEvent)
      → Reached n es c fx
      → IsDelivered c e
      → Reached n (e ∷ es) (transition c e).0 (fx ++ (transition c e).1)

IsValid-empty_core : (n : ℕ) → IsValid (empty_core n)
IsValid-empty_core n = record {
  orderly = record { sound = tt; named = tt };
  issued = record {
    fits = omega arith;
    fresh = λ g. omega arith;
    issued = λ g p. refl;
    drained = λ p. refl;
  };
  once = λ j. omega arith;
}

pub init→empty_core : (n : ℕ) (c : ReaperCore) → init n ≡ some c → empty_core n ≡ c
unfolding init
init→empty_core zero c h = cc
init→empty_core (suc n) c h = cc

-- Every core that a history reaches is valid.
pub Reached-IsValid :
    {n : ℕ} {es : List ControlEvent} {c : ReaperCore} {fx : List ControlEffect}
    → Reached n es c fx
    → IsValid c
Reached-IsValid {n} (begin c h) = subst IsValid (init→empty_core n c h) (IsValid-empty_core n)
Reached-IsValid (next {c = c} e r d) = (apply-IsValid c e (Reached-IsValid r) d).1

accepted-requested :
    (j : String) (k : EventKind) (c : ReaperCore) (e : ControlEvent)
    → count j (accepted k c e) ≤ count j (requested k e)
accepted-requested j EventKind.submit c e = elim (Option-cases e.job) [
  | inl n ↦ rw (n, accepted, requested) (omega arith)
  | inr (job, q) ↦
      rw (q, accepted, requested)
        (if_elim (λ xs. count j xs ≤ count j (job ∷ [])) (c.closing || contains (jobs c) job) _ _
          (λ _. omega arith) (λ _. omega arith))
]
accepted-requested j k c e = omega arith

-- The jobs that a history has answered or still holds are among those it was asked for, as often:
-- a job id that is submitted once is answered at most once.
pub Reached-answered :
    {n : ℕ} {es : List ControlEvent} {c : ReaperCore} {fx : List ControlEffect}
    → Reached n es c fx
    → (j : String) → count j (ended fx) + count j (jobs c) ≤ count j (submitted es)
Reached-answered {n} (begin c h) j =
    omega (arith, ap (λ x. count j (jobs x)) (init→empty_core n c h))
Reached-answered (next {es = es} {c = c} {fx = fx} e r d) j =
    let v = Reached-IsValid r in
    let orderly = IsOrderly-handle e.kind c e v.orderly d.named in
    omega (
      arith,
      Reached-answered r j,
      count-append j (requested e.kind e) (submitted es),
      count-ended-append j fx (transition c e).1,
      transition-jobs j c e v.orderly.sound d.free orderly.sound orderly.named,
      accepted-requested j e.kind c e,
    )
