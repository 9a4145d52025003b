-- ===== src/Worker/Tasks.antt =====
-- settle_execution and run_claimed_task of reaper/worker.py. Loading, executing and settling a task are
-- the input: what they give, or that they raise.
use reaper.Base.{
  ℕ, String, Bool, false, not, Option, none, some, List, [], ◌∷◌, if◌then◌else◌, ◌==◌, nat_eq,
}
use reaper.Skeleton.Types.{LifecycleKind, LifecycleEvent, ResultState, Outcome, TaskReleaseReason}
use reaper.Skeleton.Driver.{about}

-- A claimed task, and what happens to it: the version of the function that `load_task` finds, whether
-- the input is an object, the state of the result (none: the execution raises), whether a retry is
-- refused for too many failures, whether the settlement's statement succeeds.
pub record Claimed : Type 0 where
  pub task_id : String
  pub function : String
  pub version : ℕ
  pub loaded : Option ℕ
  pub is_mapping : Bool
  pub result : Option ResultState
  pub rejected : Bool
  pub settles : Bool

-- The calls on a TaskExecution.
pub data Call : Type 0 where
  complete reject suspend retry : Call

-- What a coroutine that runs a task gives: its value, or an exception.
pub data Ran {ℓ} (A : Type ℓ) : Type ℓ where
  returned : A → Ran A
  raised : Ran A

-- The call of a result's state, and the state that the caller reports.
unfoldable pub settle_execution : ResultState → Bool → Bool → Call × Ran ResultState
settle_execution state rejected settles =
    (call state, if settles then returned (final state) else raised)
  where
    call : ResultState → Call
    call ResultState.resolved = Call.complete
    call ResultState.rejected = Call.reject
    call ResultState.suspended = Call.suspend
    call ResultState.retry = Call.retry

    final : ResultState → ResultState
    final ResultState.retry = if rejected then ResultState.rejected else ResultState.retry
    final s = s

-- `task is None or task.version != execution.task.version`, the other way round
abbrev pub runnable : Claimed → Bool
runnable t = elim t.loaded [ none ↦ false | some version ↦ version == t.version ]

abbrev pub about_task :
    LifecycleKind → Claimed → Option ResultState → Option TaskReleaseReason → LifecycleEvent
about_task kind t outcome reason =
    about kind t.task_id t.version (elim outcome [ none ↦ none | some s ↦ some (Outcome.task s) ])
      reason

-- The events after TASK_CLAIMED for a task that can run, and the state to report.
unfoldable pub execute_task : Claimed → ResultState → List LifecycleEvent × Ran (Option ResultState)
unfolding settle_execution
execute_task t state = (
  about_task LifecycleKind.task_outcome t (some state) none ∷ [],
  elim (settle_execution state t.rejected t.settles).1 [
    | returned s ↦ returned (some s)
    | raised ↦ raised
  ],
)

-- `returned none` leaves the execution without an outcome.
unfoldable pub run_claimed_task : Claimed → List LifecycleEvent × Ran (Option ResultState)
unfolding execute_task
run_claimed_task t =
    let claimed = about_task LifecycleKind.task_claimed t none none in
    if not (runnable t)
    then (
      claimed
          ∷ about_task LifecycleKind.task_unavailable t none
              (some TaskReleaseReason.function_unavailable)
          ∷ [],
      returned none,
    )
    else if not t.is_mapping
    then (claimed ∷ [], raised)
    else elim t.result [
      | none ↦ (claimed ∷ [], raised)
      | some state ↦ let (events, ran) = execute_task t state in (claimed ∷ events, ran)
    ]
