-- ===== src/Pool/Serving.antt =====
-- What SkeletonPool in reaper/pool.py keeps between its operations: its core has a history, its live
-- slots are the children of the core, and each job is unknown, held, or answered once.
use reaper.Base.{
  ℕ, ◌+◌, ◌≤◌, ◌≡◌, ◌⊎◌, refl, sym, subst, ap, String, Bool, true, false, List, [], ◌∷◌, ◌++◌,
  arith, count, ◌==◌, nat_eq, string_eq, inl, inr,
}
use mathlib.Core.List.{append-nil}
use reaper.Control.Types.{ControlEvent, ControlEffect}
use reaper.Control.Core.{identity_eq, jobs}
use reaper.Control.Apply.{transition}
use reaper.Control.Drops.{arriving, transition-tally}
use reaper.Control.Effects.{ended}
use reaper.Control.Jobs.{accepted}
use reaper.Control.Safety.{IsDelivered, apply-IsValid, transition-conserves}
use reaper.Control.Histories.{Reached, next, Reached-IsValid}
use reaper.Pool.Futures.{Futures, answer_all}
use reaper.Pool.Answers.{
  IsOpen, IsOver, IsUnknown, answer_all-IsOver, answer_all-cases, answer_all-IsUnknown,
}
use reaper.Pool.Slots.{sends_in, SkeletonPool}
use reaper.Pool.Drive.{Host, Driven, driven, raised, unfinished, with_core}
use reaper.Pool.Operations.{carried_out, perform}
use reaper.Pool.Names.{names}
use reaper.Pool.Mirror.{IsMirrored}
use reaper.Pool.Carries.{IsServed, Start, Driving}
use reaper.Pool.Finishes.{Finishes, drive-Finishes}

-- Where a job stands that the pool was asked for `asked` times and the core holds `held` times: never
-- seen, waiting for the core, or answered once.
abbrev pub Stands : String → ℕ → Futures → ℕ → Type 0
Stands j asked f held =
    ((asked ≡ 0) × IsUnknown j f × (held ≡ 0))
    ⊎ ((1 ≤ asked) × IsOpen j f × (held ≡ 1))
    ⊎ ((1 ≤ asked) × IsOver j f × (held ≡ 0))

-- A pool that serves: `seen` are the jobs that it took, and `closed` is whether its core is closing. Its core
-- has a history, its live slots are the children of the core's table, each job stands as it should, and
-- the core closes only when the pool does.
pub record IsServing (n : ℕ) (seen : List String) (closed : Bool) (p : SkeletonPool) : Type 0 where
  pub events : List ControlEvent
  pub effects : List ControlEffect
  pub history : Reached n events p.core effects
  pub mirrored : IsMirrored (names p.slots) p.core []
  pub kept :
      (j : String) → ("" == j) ≡ false → Stands j (count j seen) p.futures (count j (jobs p.core))
  pub shut : p.core.closing ≡ true → p.recovery.closing ≡ true
  pub stays : p.core.closing ≡ closed

-- An operation ends without an exception, and the pool serves on.
abbrev pub Serves : ℕ → List String → Bool → Driven → Type 0
Serves n seen closed (driven p) = IsServing n seen closed p
Serves n seen closed (raised p) = ⊥
Serves n seen closed (unfinished p es) = ⊥

-- The effects that a drive carried out settle what the core owed.
settled :
    (j : String) (asked : ℕ) (f : Futures) (done : List ControlEffect) (owed held : ℕ)
    → ("" == j) ≡ false
    → Stands j asked f owed
    → held + count j (ended done) ≡ owed
    → Stands j asked (answer_all done f) held
settled j asked f done owed held named stands balance = elim stands [
  | inl unseen ↦
      inl (unseen.0, answer_all-IsUnknown done j f unseen.1, omega (arith, unseen.2, balance))
  | inr (inl waits) ↦ elim (answer_all-cases done j f named waits.1) [
    | inl still ↦ inr (inl (waits.0, still.1, omega (arith, still.0, waits.2, balance)))
    | inr over ↦ inr (inr (waits.0, over.1, omega (arith, over.0, waits.2, balance)))
  ]
  | inr (inr over) ↦
      inr (inr (over.0, answer_all-IsOver done j f over.1, omega (arith, over.2, balance)))
]

module _ (host : Host) (served : IsServed host) {n : ℕ} (event : ControlEvent) (p : SkeletonPool)
    {events : List ControlEvent} {effects : List ControlEffect}
    (history : Reached n events p.core effects) (mirrored : IsMirrored (names p.slots) p.core [])
    (delivered : IsDelivered p.core event) (calm : arriving event.kind event ≡ [])
    (seen : List String)
    (owed : (j : String)
      → ("" == j) ≡ false
      → Stands j
          (count j seen)
          p.futures
          (count j (jobs p.core) + count j (accepted event.kind p.core event)))
    (shut : (transition p.core event).0.closing ≡ true → p.recovery.closing ≡ true) (closed : Bool)
    (stays : (transition p.core event).0.closing ≡ closed) where
  abbrev starts : Start
  starts = record {
    target = n;
    past = effects;
    futures = p.futures;
    sent = sends_in p.calls;
    owed = λ j. count j (jobs p.core) + count j (accepted event.kind p.core event);
    closed = closed;
  }

  begins : Driving starts (transition p.core event).1 (with_core p (transition p.core event).0)
  unfolding answer_all
  begins = record {
    events = event ∷ events;
    done = [];
    history = next event history delivered;
    owes = λ j. transition-conserves j p.core event (Reached-IsValid history) delivered;
    futures = refl;
    sends = sym (append-nil (sends_in p.calls));
    mirrored = record {
      keyed = mirrored.keyed;
      sole = mirrored.sole;
      mirrors = λ i. omega (
        arith,
        mirrored.mirrors i,
        transition-tally i p.core event delivered.free,
        ap (count i) calm,
      );
    };
    shut = shut;
    stays = stays;
  }

  Serves-finished : (r : Driven) → Finishes starts r → Serves n seen closed r
  Serves-finished (driven q) d = record {
    events = d.events;
    effects = effects ++ (d.done ++ []);
    history = d.history;
    mirrored = d.mirrored;
    kept = λ j named.
        subst (λ f. Stands j (count j seen) f (count j (jobs q.core))) (sym d.futures)
          (settled j (count j seen) p.futures d.done _ (count j (jobs q.core)) named (owed j named)
            (subst
              (λ fx.
                count j (jobs q.core) + count j (ended fx)
                ≡ count j (jobs p.core) + count j (accepted event.kind p.core event))
              (append-nil d.done) (d.owes j)));
    shut = d.shut;
    stays = d.stays;
  }
  Serves-finished (raised q) d = d
  Serves-finished (unfinished q es) d = d

  -- An event that the core takes, with all that it brings.
  pub perform-Serves : Serves n seen closed (perform host event p)
  unfolding perform
  perform-Serves =
      subst (λ o. Serves n seen closed (carried_out host p o))
        (sym (apply-IsValid p.core event (Reached-IsValid history) delivered).0)
        (Serves-finished _ (
          drive-Finishes host served _ (transition p.core event).1
            (with_core p (transition p.core event).0) begins (omega arith)))
