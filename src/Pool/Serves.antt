-- ===== src/Pool/Serves.antt =====
-- How the operations of SkeletonPool in reaper/pool.py keep a pool that serves: writes beside the core,
-- one operation after another, and an event for the core with all that it brings.
use reaper.Base.{
  ℕ, ◌≡◌, refl, sym, subst, ap, ◌∙◌, String, Bool, false, List, [], arith, count, nat_eq, string_eq,
  Option-cases, inl, inr,
}
use reaper.Control.Types.{SkeletonId, EventKind, ControlEvent}
use reaper.Control.Core.{identity_eq, jobs, is_starting}
use reaper.Control.Drops.{arriving}
use reaper.Control.Jobs.{accepted}
use reaper.Control.Safety.{IsDelivered}
use reaper.Control.Shut.{is_close, transition-Leaves}
use reaper.Pool.Futures.{Futures}
use reaper.Pool.Slots.{Slot, SkeletonPool, live_slot, write_slot}
use reaper.Pool.Drive.{Host, Driven, driven, raised, unfinished}
use reaper.Pool.Operations.{◌>>=◌, perform, slot_event, recovering_after, lose}
use reaper.Pool.Names.{names}
use reaper.Pool.Rounds.{Still, Still-write_slot}
use reaper.Pool.Carries.{IsServed}
use reaper.Pool.Turns.{schedule_recovery-closing}
use reaper.Pool.Serving.{IsServing, Serves, Stands, perform-Serves}

-- A pool that differs only in what its core, its jobs and its live identities do not show.
pub record Aside (p p' : SkeletonPool) : Type 0 where
  pub core : p'.core ≡ p.core
  pub names : names p'.slots ≡ names p.slots
  pub jobs : p'.futures.jobs ≡ p.futures.jobs
  pub completed : p'.futures.completed ≡ p.futures.completed
  pub closing : p'.recovery.closing ≡ p.recovery.closing

Aside-Still : (p p' : SkeletonPool) → Still p p' → Aside p p'
Aside-Still p p' s = record {
  core = s.core;
  names = s.names;
  jobs = ap (λ (f : Futures). f.jobs) s.futures;
  completed = ap (λ (f : Futures). f.completed) s.futures;
  closing = s.closing;
}

Stands-same :
    (j : String) (asked held : ℕ) (f f' : Futures)
    → f'.jobs ≡ f.jobs
    → f'.completed ≡ f.completed
    → Stands j asked f held
    → Stands j asked f' held
Stands-same j asked held f f' same_jobs same_completed h = elim h [
  | inl (a, u, z) ↦
      inl (a, record { absent = rw same_jobs u.absent; never = rw same_completed u.never }, z)
  | inr (inl (a, o, z)) ↦ inr (
      inl (
        a,
        record {
          there = rw same_jobs o.there;
          sole = rw same_jobs o.sole;
          never = rw same_completed o.never;
        },
        z,
      ))
  | inr (inr (a, o, z)) ↦
      inr (inr (a, record { gone = rw same_jobs o.gone; once = rw same_completed o.once }, z))
]

module _ {n : ℕ} {seen : List String} {closed : Bool} where
  pub Serving-Aside :
      (p p' : SkeletonPool) → Aside p p' → IsServing n seen closed p → IsServing n seen closed p'
  Serving-Aside p p' a d = record {
    events = d.events;
    effects = d.effects;
    history = rw (a.core) d.history;
    mirrored = rw (a.core, a.names) d.mirrored;
    kept = λ j named.
        Stands-same j (count j seen) _ p.futures p'.futures a.jobs a.completed
          (rw (a.core) (d.kept j named));
    shut = λ h. a.closing ∙ d.shut (rw a.core at h);
    stays = rw (a.core) d.stays;
  }

  -- The same core, slots, jobs and flag of closing.
  pub Serving-beside :
      (p p' : SkeletonPool)
      → p'.core ≡ p.core
      → p'.slots ≡ p.slots
      → p'.futures.jobs ≡ p.futures.jobs
      → p'.futures.completed ≡ p.futures.completed
      → p'.recovery.closing ≡ p.recovery.closing
      → IsServing n seen closed p
      → IsServing n seen closed p'
  Serving-beside p p' core slots jobs completed closing = Serving-Aside p p' (record {
    core = core;
    names = ap names slots;
    jobs = jobs;
    completed = completed;
    closing = closing;
  })

  pub Serves-then :
      (r : Driven) (f : SkeletonPool → Driven)
      → Serves n seen closed r
      → ((q : SkeletonPool) → IsServing n seen closed q → Serves n seen closed (f q))
      → Serves n seen closed (r >>= f)
  Serves-then (driven q) f d k = k q d
  Serves-then (raised q) f d k = d
  Serves-then (unfinished q es) f d k = d

  pub Serving-recovering :
      (pre_ready : Bool) (q : SkeletonPool)
      → IsServing n seen closed q
      → Serves n seen closed (recovering_after pre_ready q)
  Serving-recovering pre_ready q = Serving-Aside q _ (record {
    core = refl;
    names = refl;
    jobs = refl;
    completed = refl;
    closing = schedule_recovery-closing q.recovery pre_ready;
  })

  pub Serving-write :
      (p : SkeletonPool) (s : Slot)
      → IsServing n seen closed p
      → IsServing n seen closed (write_slot p s)
  Serving-write p s = Serving-Aside p _ (Aside-Still p _ (Still-write_slot p s))

module _ (host : Host) (served : IsServed host) {n : ℕ} {seen : List String} {closed : Bool} where
  -- An event that neither asks for a job nor brings a child nor closes.
  pub perform-calm :
      (event : ControlEvent) (p : SkeletonPool)
      → IsDelivered p.core event
      → arriving event.kind event ≡ []
      → accepted event.kind p.core event ≡ []
      → is_close event.kind ≡ false
      → IsServing n seen closed p
      → Serves n seen closed (perform host event p)
  perform-calm event p delivered calm unasked open_ d =
      perform-Serves host served event p d.history d.mirrored delivered calm seen
        (λ j named.
          subst (Stands j (count j seen) p.futures) (omega (arith, ap (count j) unasked))
            (d.kept j named))
        (λ h. d.shut (sym (transition-Leaves p.core event open_) ∙ h)) closed
        (transition-Leaves p.core event open_ ∙ d.stays)

  pub lose-Serves :
      (i : SkeletonId) (p : SkeletonPool)
      → IsServing n seen closed p
      → Serves n seen closed (lose host i p)
  unfolding lose
  lose-Serves i p d = elim (Option-cases (live_slot p i)) [
    | inl absent ↦ rw (absent, lose) d
    | inr (s, f) ↦
        rw (f, lose)
          (Serves-then (perform host (slot_event EventKind.eof s.identity) p)
            (recovering_after (is_starting s.state))
            (perform-calm (slot_event EventKind.eof s.identity) p
              (record { free = tt; named = tt; matched = tt }) refl refl refl d)
            (Serving-recovering (is_starting s.state)))
  ]
