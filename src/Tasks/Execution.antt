-- ===== src/Tasks/Execution.antt =====
-- TaskExecution of reaper/tasks/__init__.py: one outcome for a claimed task, and submissions that are
-- answered in batches. A future is a number; what the statements do is the input.
use reaper.Base.{ℕ, Bool, true, false, List, [], ◌∷◌, ◌++◌, map, if◌then◌else◌, nat_eq}

-- The statements that end a task: complete, reject, retry, suspend.
pub data Outcome : Type 0 where
  complete reject retry suspend : Outcome

-- What a submission's future is given.
pub data Answer : Type 0 where
  result exception cancelled : Answer

-- The outcomes that were written, the futures that wait for the batch of `submission_task`, whether
-- that task exists, the batches that it has taken, and the futures that are done.
pub record TaskExecution : Type 0 where
  pub finished : Bool
  pub outcomes : List Outcome
  pub pending_submissions : List ℕ
  pub submission_task : Bool
  pub batches : List (List ℕ)
  pub done : List (ℕ × Answer)

abbrev pub init : TaskExecution
init = record {
  finished = false;
  outcomes = [];
  pending_submissions = [];
  submission_task = false;
  batches = [];
  done = [];
}

-- complete, reject, retry and suspend: `ensure_open`, the statement, `finish`.
unfoldable pub settle : Outcome → Bool → TaskExecution → TaskExecution
settle outcome succeeds x =
    if x.finished
    then x
    else if succeeds
    then record x { finished = true; outcomes = x.outcomes ++ outcome ∷ [] }
    else x

-- A refused submission raises at once, and has no future.
unfoldable pub submit : ℕ → TaskExecution → TaskExecution
submit future x = if x.finished then x else record x {
  pending_submissions = x.pending_submissions ++ future ∷ [];
  submission_task = true;
}

-- flush_submissions up to its call of submit_many, once the event loop runs it.
unfoldable pub take_batch : TaskExecution → TaskExecution
take_batch x =
    if x.submission_task
    then record x {
      pending_submissions = [];
      submission_task = false;
      batches = x.batches ++ x.pending_submissions ∷ [];
    }
    else x

abbrev pub answer_all : Answer → List ℕ → List (ℕ × Answer)
answer_all answer futures = map (λ future. (future, answer)) futures

-- submit_many refuses once the task has an outcome; otherwise its statement decides.
abbrev pub verdict : Bool → Bool → Answer
verdict finished succeeds = if finished then exception else if succeeds then result else exception

abbrev pub answer_batches : Answer → List (List ℕ) → List (List ℕ) × List (ℕ × Answer)
answer_batches answer [] = ([], [])
answer_batches answer (batch ∷ batches) = (batches, answer_all answer batch)

-- submit_many and the rest of flush_submissions, for the batch that has the lock.
unfoldable pub answer_batch : Bool → TaskExecution → TaskExecution
answer_batch succeeds x = record x {
  batches = (answer_batches (verdict x.finished succeeds) x.batches).0;
  done = x.done ++ (answer_batches (verdict x.finished succeeds) x.batches).1;
}

unfoldable pub cancel_submissions : TaskExecution → TaskExecution
cancel_submissions x = record x {
  pending_submissions = [];
  submission_task = false;
  done = x.done ++ answer_all cancelled x.pending_submissions;
}

pub data Event : Type 0 where
  settles : Outcome → Bool → Event
  submits : ℕ → Event
  takes cancels : Event
  answers : Bool → Event

unfoldable pub step : Event → TaskExecution → TaskExecution
unfolding settle submit take_batch answer_batch cancel_submissions
step (settles outcome succeeds) x = settle outcome succeeds x
step (submits future) x = submit future x
step takes x = take_batch x
step cancels x = cancel_submissions x
step (answers succeeds) x = answer_batch succeeds x

unfoldable pub run : List Event → TaskExecution → TaskExecution
unfolding step
run [] x = x
run (e ∷ es) x = run es (step e x)
