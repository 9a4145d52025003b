-- ===== src/Skeleton/Driver.antt =====
-- The lifecycle reporter of skeleton_main in reaper/pool.py: one SkeletonCore for a child's life. The
-- message that it sends to the parent is the effect.
use reaper.Base.{
  ℕ, String, ◌≡◌, refl, sym, ap, ◌∙◌, false, Option, none, some, List, [], ◌∷◌, ◌++◌, ◌==◌,
  string_eq, Option-cases, inl, inr, arith,
}
use mathlib.Core.Option.{some-injective}
use reaper.Skeleton.Types.{
  SkeletonPhase, ListenerPhase, LifecycleKind, LifecycleEvent, SkeletonCore, Outcome,
  TaskReleaseReason,
}
use reaper.Skeleton.Core.{Applied, reported, raised, apply, switch, finish, assert_invariants}

-- `LifecycleEvent(kind=kind)`
abbrev pub event : LifecycleKind → LifecycleEvent
event kind = record {
  kind = kind;
  task_id = "";
  version = 0;
  outcome = none;
  release_reason = none;
  count = none;
  detail = "";
}

abbrev pub applied_core : Applied → Option SkeletonCore
applied_core (reported c effect) = some c
applied_core (raised error c) = none

-- `none` is an event that raises, which ends the child.
unfoldable pub lifecycle : SkeletonCore → LifecycleEvent → Option SkeletonCore
lifecycle c e = applied_core (apply c e)

-- The reports of a child in order.
unfoldable pub drive : SkeletonCore → List LifecycleEvent → Option SkeletonCore
drive c [] = some c
drive c (e ∷ es) = elim (lifecycle c e) [ none ↦ none | some c' ↦ drive c' es ]

pub drive_step :
    (c d : SkeletonCore) (e : LifecycleEvent) (es : List LifecycleEvent)
    → lifecycle c e ≡ some d
    → drive c (e ∷ es) ≡ drive d es
unfolding drive
drive_step c d e es h = rw (drive, h) refl

pub drive-append :
    (c d : SkeletonCore) (front back : List LifecycleEvent)
    → drive c front ≡ some d
    → drive c (front ++ back) ≡ drive d back
unfolding drive
drive-append c d [] back h = ap (λ (x : SkeletonCore). drive x back) (some-injective _ _ h)
drive-append c d (e ∷ front) back h = elim (Option-cases (lifecycle c e)) [
  | inl n ↦ absurd (cc)
  | inr (c', k) ↦
      drive_step c c' e _ k ∙ drive-append c' d front back (sym (drive_step c c' e front k) ∙ h)
]

-- The cores of the phases, with what they hold.
abbrev pub core : SkeletonPhase → ListenerPhase → ℕ → SkeletonCore
core phase listener gen = record {
  phase = phase;
  listener = listener;
  listener_generation = gen;
  task_id = "";
  version = 0;
}

abbrev pub holding : SkeletonPhase → ListenerPhase → ℕ → String → ℕ → SkeletonCore
holding phase listener gen id version = record {
  phase = phase;
  listener = listener;
  listener_generation = gen;
  task_id = id;
  version = version;
}

pub drive-nil : (c : SkeletonCore) → drive c [] ≡ some c
unfolding drive
drive-nil c = refl

-- START, FAULT and the two events of the end are accepted in every core.
pub lifecycle-start :
    (c : SkeletonCore)
    → lifecycle c (event LifecycleKind.start)
      ≡ some (core SkeletonPhase.connecting c.listener c.listener_generation)
unfolding lifecycle apply switch finish assert_invariants
lifecycle-start c = refl

pub lifecycle-fault :
    (c : SkeletonCore) (detail : String)
    → lifecycle c (record (event LifecycleKind.fault) { detail = detail })
      ≡ some (core SkeletonPhase.backoff ListenerPhase.closed c.listener_generation)
unfolding lifecycle apply switch finish assert_invariants
lifecycle-fault c detail = refl

pub drive-stopped :
    (c : SkeletonCore)
    → drive c (event LifecycleKind.stop ∷ event LifecycleKind.stopped ∷ [])
      ≡ some (core SkeletonPhase.dead ListenerPhase.closed c.listener_generation)
unfolding drive lifecycle apply switch finish assert_invariants
drive-stopped c = refl

-- An event about a task.
abbrev pub about :
    LifecycleKind → String → ℕ → Option Outcome → Option TaskReleaseReason → LifecycleEvent
about kind id version outcome reason = record {
  kind = kind;
  task_id = id;
  version = version;
  outcome = outcome;
  release_reason = reason;
  count = none;
  detail = "";
}

module _ (l : ListenerPhase) (g : ℕ) (id : String) (v : ℕ) (named : (id == "") ≡ false)
    (o : Option Outcome) (r : Option TaskReleaseReason) where
  pub lifecycle-task_claimed :
      lifecycle (core SkeletonPhase.idle l g) (about LifecycleKind.task_claimed id v o r)
      ≡ some (holding SkeletonPhase.running l g id v)
  unfolding lifecycle apply switch finish assert_invariants
  lifecycle-task_claimed = ground arith

  pub lifecycle-work_started :
      lifecycle (core SkeletonPhase.idle l g) (about LifecycleKind.work_started id v o r)
      ≡ some (holding SkeletonPhase.running l g id v)
  unfolding lifecycle apply switch finish assert_invariants
  lifecycle-work_started = ground arith

  pub lifecycle-task_outcome :
      lifecycle (holding SkeletonPhase.running l g id v) (about LifecycleKind.task_outcome id v o r)
      ≡ some (holding SkeletonPhase.settling l g id v)
  unfolding lifecycle apply switch finish assert_invariants
  lifecycle-task_outcome = ground arith

  pub lifecycle-task_unavailable :
      lifecycle
        (holding SkeletonPhase.running l g id v)
        (about LifecycleKind.task_unavailable id v o r)
      ≡ some (holding SkeletonPhase.settling l g id v)
  unfolding lifecycle apply switch finish assert_invariants
  lifecycle-task_unavailable = ground arith

-- A child whose reports are all accepted, and the core that they lead to.
abbrev pub Accepted : SkeletonCore → List LifecycleEvent → Type 0
Accepted c es = (d : SkeletonCore) × (drive c es ≡ some d)

pub Accepted-nil : (c : SkeletonCore) → Accepted c []
Accepted-nil c = (c, drive-nil c)

pub Accepted-step :
    (c d : SkeletonCore) (e : LifecycleEvent) (es : List LifecycleEvent)
    → lifecycle c e ≡ some d
    → Accepted d es
    → Accepted c (e ∷ es)
Accepted-step c d e es h (last, k) = (last, drive_step c d e es h ∙ k)

pub Accepted-append :
    (c d : SkeletonCore) (front back : List LifecycleEvent)
    → drive c front ≡ some d
    → Accepted d back
    → Accepted c (front ++ back)
Accepted-append c d front back h (last, k) = (last, drive-append c d front back h ∙ k)

drive-refused :
    (c : SkeletonCore) (e : LifecycleEvent) (es : List LifecycleEvent)
    → lifecycle c e ≡ none
    → drive c (e ∷ es) ≡ none
unfolding drive
drive-refused c e es h = rw (drive, h) refl

pub Accepted-front :
    (c : SkeletonCore) (front back : List LifecycleEvent)
    → Accepted c (front ++ back)
    → Accepted c front
Accepted-front c [] back h = Accepted-nil c
Accepted-front c (e ∷ front) back (last, h) = elim (Option-cases (lifecycle c e)) [
  | inl n ↦ let none≡last = sym (drive-refused c e (front ++ back) n) ∙ h in absurd (cc)
  | inr (d, k) ↦
      Accepted-step c d e front k
        (Accepted-front d front back (last, sym (drive_step c d e (front ++ back) k) ∙ h))
]
