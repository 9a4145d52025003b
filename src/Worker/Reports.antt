-- ===== src/Worker/Reports.antt =====
-- The lifecycle core of reaper/skeleton.py under the reports of poll_tasks in reaper/worker.py.
use reaper.Base.{
  ℕ, ◌≡◌, refl, ◌∙◌, false, not, Option, none, some, List, [], ◌∷◌, if_elim, ◌==◌, string_eq, arith,
  Option-cases, inl, inr,
}
use reaper.Skeleton.Types.{
  SkeletonPhase, ListenerPhase, LifecycleKind, LifecycleEvent, ResultState, SkeletonCore,
  TaskReleaseReason,
}
use reaper.Skeleton.Core.{apply, switch, finish, assert_invariants}
use reaper.Skeleton.Driver.{
  event, drive, lifecycle, core, holding, drive_step, drive-nil, lifecycle-task_claimed,
  lifecycle-task_outcome, lifecycle-task_unavailable,
}
use reaper.Worker.Tasks.{
  Claimed, Ran, returned, raised, run_claimed_task, about_task, execute_task, settle_execution,
  runnable,
}
use reaper.Worker.Poll.{Claim, Turn, Excluded, report_end}

-- Claimed rows have an id: the model of a claimed task asks for one character or more.
abbrev pub IsNamedClaim : Claim → Type 0
IsNamedClaim (Claim.took t closes) = (t.task_id == "") ≡ false
IsNamedClaim c = Unit

abbrev pub IsNamedTurn : Turn → Type 0
IsNamedTurn turn = IsNamedClaim turn.claim

-- The core between two turns, and one that holds the task of a turn.
abbrev pub idle : ℕ → SkeletonCore
idle g = core SkeletonPhase.idle ListenerPhase.listening g

abbrev pub held : SkeletonPhase → ℕ → Claimed → SkeletonCore
held p g t = holding p ListenerPhase.listening g t.task_id t.version

-- A core that takes LISTENER_CLOSED.
abbrev pub Closable : SkeletonCore → Type 0
Closable c = (d : SkeletonCore) × (lifecycle c (event LifecycleKind.listener_closed) ≡ some d)

-- Reports from `c` that end in a closable core.
abbrev pub Ends : SkeletonCore → List LifecycleEvent → Type 0
Ends c es = (d : SkeletonCore) × (drive c es ≡ some d) × Closable d

-- A turn that raises leaves a closable core; one that returns leaves the core idle.
abbrev pub Turned : SkeletonCore → List LifecycleEvent × Ran Excluded → Type 0
Turned c (events, raised) = Ends c events
Turned c (events, returned more) = (g : ℕ) × (drive c events ≡ some (idle g))

-- A run of a task leaves it held, for the report that ends it.
abbrev pub Runs : ℕ → Claimed → List LifecycleEvent × Ran (Option ResultState) → Type 0
Runs g t (events, raised) = Ends (idle g) events
Runs g t (events, returned o) = drive (idle g) events ≡ some (held SkeletonPhase.settling g t)

pub Closable-idle : (g : ℕ) → Closable (idle g)
unfolding lifecycle apply switch finish assert_invariants
Closable-idle g = (core SkeletonPhase.idle ListenerPhase.closed g, refl)

module _ (g : ℕ) (t : Claimed) (named : (t.task_id == "") ≡ false) where
  Closable-running : Closable (held SkeletonPhase.running g t)
  unfolding lifecycle apply switch finish assert_invariants
  Closable-running =
      (holding SkeletonPhase.running ListenerPhase.closed g t.task_id t.version, ground arith)

  pub Closable-settling : Closable (held SkeletonPhase.settling g t)
  unfolding lifecycle apply switch finish assert_invariants
  Closable-settling =
      (holding SkeletonPhase.settling ListenerPhase.closed g t.task_id t.version, ground arith)

  drive-claimed :
      (es : List LifecycleEvent)
      → drive (idle g) (about_task LifecycleKind.task_claimed t none none ∷ es)
        ≡ drive (held SkeletonPhase.running g t) es
  drive-claimed es =
      drive_step _ _ _ _
        (lifecycle-task_claimed ListenerPhase.listening g t.task_id t.version named none none)

  drive-unavailable :
      drive (held SkeletonPhase.running g t) (
        about_task LifecycleKind.task_unavailable t none
          (some TaskReleaseReason.function_unavailable)
        ∷ [])
      ≡ some (held SkeletonPhase.settling g t)
  drive-unavailable =
      drive_step _ _ _ _
        (lifecycle-task_unavailable ListenerPhase.listening g t.task_id t.version named none _)
      ∙ drive-nil _

  drive-outcome :
      (state : ResultState)
      → drive
          (held SkeletonPhase.running g t)
          (about_task LifecycleKind.task_outcome t (some state) none ∷ [])
        ≡ some (held SkeletonPhase.settling g t)
  drive-outcome state =
      drive_step _ _ _ _
        (lifecycle-task_outcome ListenerPhase.listening g t.task_id t.version named _ none)
      ∙ drive-nil _

  Runs-execute_task :
      (state : ResultState)
      → Runs g t (
        about_task LifecycleKind.task_claimed t none none ∷ (execute_task t state).0,
        (execute_task t state).1,
      )
  unfolding execute_task settle_execution
  Runs-execute_task state =
      if_elim
        (λ (r : Ran ResultState). Runs g t (
          about_task LifecycleKind.task_claimed t none none
              ∷ about_task LifecycleKind.task_outcome t (some state) none
              ∷ [],
          elim r [ returned s ↦ returned (some s) | raised ↦ raised ],
        ))
        t.settles _ _ (λ _. drive-claimed _ ∙ drive-outcome state)
        (λ _. (
          held SkeletonPhase.settling g t,
          drive-claimed _ ∙ drive-outcome state,
          Closable-settling,
        ))

  gave_up : Ends (idle g) (about_task LifecycleKind.task_claimed t none none ∷ [])
  gave_up = (held SkeletonPhase.running g t, drive-claimed [] ∙ drive-nil _, Closable-running)

  pub Runs-run_claimed_task : Runs g t (run_claimed_task t)
  unfolding run_claimed_task
  Runs-run_claimed_task =
      if_elim (Runs g t) (not (runnable t)) _ _ (λ _. drive-claimed _ ∙ drive-unavailable)
        (λ _.
          if_elim (Runs g t) (not t.is_mapping) _ _ (λ _. gave_up)
            (λ _. elim (Option-cases t.result) [
              | inl n ↦ rw n gave_up
              | inr (state, h) ↦ rw h (Runs-execute_task state)
            ]))

  -- TASK_COMMITTED or TASK_RELEASED.
  pub lifecycle-report_end :
      (o : Option ResultState)
      → lifecycle (held SkeletonPhase.settling g t) (report_end t o) ≡ some (idle g)
  unfolding lifecycle apply switch finish assert_invariants
  lifecycle-report_end none = ground arith
  lifecycle-report_end (some s) = ground arith
