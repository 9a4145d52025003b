-- ===== src/Worker/Maintenance.antt =====
-- poll_maintenance of reaper/worker.py. A pass of the loop has what its calls give, or that they raise;
-- times are natural numbers of one unit.
use reaper.Base.{
  ℕ, zero, suc, ◌≡◌, ◌+◌, Bool, true, false, Option, none, some, List, [], ◌∷◌, ◌++◌, if◌then◌else◌,
  ltb, leb, ◌==◌, nat_eq,
}
use reaper.Skeleton.Types.{
  SkeletonPhase, ListenerPhase, LifecycleKind, LifecycleEvent, SkeletonCore,
}
use reaper.Skeleton.Driver.{event, drive, core}
use reaper.Worker.Tasks.{Ran, returned, raised}

-- One pass: whether `process_due` succeeds, the time, and what the n-th call of `gc` gives.
pub record Pass : Type 0 where
  pub due : Bool
  pub now : ℕ
  pub gc : ℕ → Option ℕ

-- A batch that is not full is the last.
abbrev pub batch_limit : ℕ
batch_limit = 10000

-- `removed` after at most `calls` batches, from the n-th on.
unfoldable pub collect : ℕ → ℕ → ℕ → (ℕ → Option ℕ) → Option ℕ
collect zero n removed gc = some removed
collect (suc calls) n removed gc = elim (gc n) [
  | none ↦ none
  | some batch ↦ elim (ltb batch batch_limit) [
    | true ↦ some (removed + batch)
    | false ↦ collect calls (suc n) (removed + batch) gc
  ]
]

abbrev pub gc_report : ℕ → List LifecycleEvent
gc_report removed =
    if removed == 0
    then []
    else record (event LifecycleKind.gc_finished) { count = some removed } ∷ []

abbrev pub next_time : ℕ → Option ℕ → List LifecycleEvent × Ran ℕ
next_time later none = ([], raised)
next_time later (some removed) = (gc_report removed, returned later)

-- The collection of a pass whose time has come, and the time of the next one.
unfoldable pub collect_due : ℕ → Pass → List LifecycleEvent × Ran ℕ
unfolding collect
collect_due gc_rate pass = next_time (pass.now + gc_rate) (collect 10 0 0 pass.gc)

unfoldable pub maintain : ℕ → ℕ → Pass → List LifecycleEvent × Ran ℕ
unfolding collect_due
maintain gc_rate next_gc pass =
    if pass.due
    then (let (events, ran) =
          if leb next_gc pass.now then collect_due gc_rate pass else ([], returned next_gc) in
        (event LifecycleKind.maintenance_poll ∷ events, ran))
    else ([], raised)

-- `while True`, as far as the passes are known.
unfoldable pub follow_pass :
    (ℕ → List LifecycleEvent) → List LifecycleEvent × Ran ℕ → List LifecycleEvent
follow_pass rest (events, raised) = events
follow_pass rest (events, returned next_gc) = events ++ rest next_gc

unfoldable pub passes : ℕ → List Pass → ℕ → List LifecycleEvent
unfolding maintain follow_pass
passes gc_rate [] next_gc = []
passes gc_rate (pass ∷ rest) next_gc =
    follow_pass (λ later. passes gc_rate rest later) (maintain gc_rate next_gc pass)

-- `opens` says whether the store is opened; `start` is the time at which the loop begins.
unfoldable pub poll_maintenance : ℕ → Bool → ℕ → List Pass → List LifecycleEvent
unfolding passes
poll_maintenance gc_rate opens start ps =
    if opens
    then event LifecycleKind.link_opened ∷ event LifecycleKind.ready ∷ passes gc_rate ps start
    else []

abbrev resting : ℕ → SkeletonCore
resting g = core SkeletonPhase.idle ListenerPhase.closed g

abbrev Keeps : ℕ → List LifecycleEvent → Type 0
Keeps g es = drive (resting g) es ≡ some (resting g)
