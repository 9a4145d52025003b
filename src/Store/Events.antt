-- ===== src/Store/Events.antt =====
-- What transactions do with the store: submissions of Tasks and Promises, a claim with the calls of its
-- TaskExecution, process_due and delete_expired of Maintenance. Transactions come one after another, and
-- one that raises leaves the store as it was.
use reaper.Base.{ℕ, String, Bool, Option, none, some, List, [], ◌∷◌}
use reaper.Store.Types.{TaskRow, Store}
use reaper.Store.Submit.{Request, Timer, submit_calls, submit_timer}
use reaper.Store.Claim.{FunctionVersion, claim}
use reaper.Store.Suspend.{Suspended, suspended, refused, suspend_task}
use reaper.Store.Maintain.{process_due, delete_expired}
use reaper.Store.Tasks.{TaskResult, done, task_not_found, complete_task, reject_task, retry_task}

-- TaskExecution.submit_many and timer
pub data Work : Type 0 where
  submits : List Request → Work
  times : Timer → Work

-- TaskExecution.complete, reject, retry and suspend
pub data Ending : Type 0 where
  completes : Option String → Ending
  rejects : String → Ending
  retries : String → ℕ → Ending
  suspends : List String → Ending

-- What a claim asks for: a topic, without some functions, at a time, past the rows that are locked.
pub record Claiming : Type 0 where
  pub now : ℕ
  pub topic : String
  pub excluded : List FunctionVersion
  pub locked : String → Bool

pub data Event : Type 0 where
  works : Work → Event
  executes : Claiming → List Work → ℕ → Ending → Event
  processes : (String → Bool) → (String → Bool) → ℕ → ℕ → Event
  deletes : (String → Bool) → ℕ → ℕ → Event

unfoldable pub work : Work → Store → Store
unfolding submit_calls submit_timer
work (submits rs) s = submit_calls rs s
work (times t) s = (submit_timer t s).0

unfoldable pub work_all : List Work → Store → Store
unfolding work
work_all [] s = s
work_all (w ∷ ws) s = work_all ws (work w s)

-- The store that is left, or the one before the transaction.
abbrev pub committed {ℓ} : {A : Type ℓ} → Store → TaskResult {ℓ} A → Store
committed s (done s' a) = s'
committed s (task_not_found id) = s

abbrev pub committed_wait : Store → Suspended → Store
committed_wait s (suspended s') = s'
committed_wait s (refused fault) = s

-- The transaction began in `s`, and `s'` is what its work made of that.
unfoldable pub end : ℕ → String → Ending → Store → Store → Store
unfolding complete_task reject_task retry_task suspend_task
end now id (completes result) s s' = committed s (complete_task now id result s')
end now id (rejects error) s s' = committed s (reject_task now id (some error) s')
end now id (retries error delay_ms) s s' = committed s (retry_task now id error delay_ms s')
end now id (suspends awaited) s s' = committed_wait s (suspend_task now id awaited s')

abbrev pub execute : Option TaskRow → List Work → ℕ → Ending → Store → Store
execute none ws now ending s = s
execute (some t) ws now ending s = end now t.promise_id ending s (work_all ws s)

module _ (precedes : String → String → Bool) where
  unfoldable pub step : Event → Store → Store
  unfolding work work_all end claim process_due delete_expired
  step (works w) s = work w s
  step (executes c ws now ending) s =
      execute (claim precedes c.now c.topic c.excluded c.locked s) ws now ending s
  step (processes locked task_locked now limit) s =
      (process_due precedes locked task_locked now limit s).0
  step (deletes locked before limit) s = (delete_expired precedes locked before limit s).0

  unfoldable pub run : List Event → Store → Store
  unfolding step
  run [] s = s
  run (e ∷ es) s = run es (step e s)
