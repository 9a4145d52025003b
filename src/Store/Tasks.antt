-- ===== src/Store/Tasks.antt =====
-- settle_task, complete_task, reject_task and retry_task of reaper/tasks/__init__.py, with
-- reaper/tasks/queries/lock_promise.sql.
use reaper.Base.{ℕ, suc, String, Bool, not, ◌&&◌, Option, none, some, if◌then◌else◌, ltb}
use reaper.Store.Types.{Store}
use reaper.Store.Rows.{pending, has_task}
use reaper.Store.Settle.{Outcome, resolved, rejected, settle, retry, find_task}

pub data TaskResult {ℓ} (A : Type ℓ) : Type ℓ where
  done : Store → A → TaskResult A
  task_not_found : String → TaskResult A

-- LOCK_PROMISE finds a pending promise that has a task.
unfoldable pub settle_task : ℕ → String → Outcome → Store → TaskResult {0} Unit
unfolding settle
settle_task now id outcome s =
    if has_task s.tasks id && pending s.promises id
    then done (settle now id outcome s) tt
    else task_not_found id

unfoldable pub complete_task : ℕ → String → Option String → Store → TaskResult {0} Unit
unfolding settle_task
complete_task now id result s = settle_task now id (resolved result) s

unfoldable pub reject_task : ℕ → String → Option String → Store → TaskResult {0} Unit
unfolding settle_task
reject_task now id error s = settle_task now id (rejected error) s

pub record RetryResult : Type 0 where
  pub rejected : Bool
  pub failures : ℕ

unfoldable pub retry_task : ℕ → String → String → ℕ → Store → TaskResult {0} RetryResult
unfolding retry
retry_task now id error delay_ms s = elim (find_task s.tasks id) [
  | none ↦ task_not_found id
  | some t ↦
      if pending s.promises id
      then done (retry now id error delay_ms s) (record {
        rejected = not (ltb (suc t.failures) t.max_failures);
        failures = suc t.failures;
      })
      else task_not_found id
]
