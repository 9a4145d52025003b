-- ===== src/Tasks/Tests.antt =====
-- Claims, outcomes and submissions of reaper/tasks/__init__.py at concrete inputs.
use reaper.Base.{◌≡◌, ◌+◌, refl, true, false, List, [], ◌∷◌, String}
use reaper.Tasks.Connection.{Finish}
use reaper.Tasks.Claim.{Entry, Exit, Found, use_claim, Balanced, use_claim-Balanced}
use reaper.Tasks.Execution.{Outcome, Event, settles, submits, takes, cancels, answers, init, run}
use reaper.Tasks.Outcomes.{IsValid, run-IsValid, run-held, held, made}
use reaper.Tasks.Submit.{PromiseRecord, submitted, submit_calls, Matches, submit_calls-Matches}

abbrev finish : Finish
finish = record {
  commits = true;
  in_transaction = true;
  rolls_back = true;
  release = record { closed = false; terminates = true; releases = true };
}

abbrev entry : Entry
entry = record {
  acquires = true;
  makes_transaction = true;
  starts = true;
  found = Found.task;
  finish = finish;
}

abbrev exit : Exit
exit = record { returns = true; finished = true; cancels = true; finish = finish }

use_claim-Balanced_example : Balanced 1 1 1 (use_claim entry exit).0
use_claim-Balanced_example = use_claim-Balanced entry exit

abbrev events : List Event
events =
    submits 1
    ∷ submits 2
    ∷ takes
    ∷ submits 3
    ∷ answers true
    ∷ settles Outcome.complete true
    ∷ cancels
    ∷ settles Outcome.reject true
    ∷ []

init-IsValid : IsValid init
init-IsValid = record { once = refl; scheduled = refl }

run-IsValid_example : IsValid (run events init)
run-IsValid_example = run-IsValid events init init-IsValid

run-held_example : held (run events init) 2 ≡ held init 2 + made events init 2
run-held_example = run-held events init 2

-- A call is its id here, its fingerprint its id too, and the statements find what is asked for.
abbrev row : String → PromiseRecord
row id = record { id = id; idempotency_key = id }

abbrev rows : List String → List PromiseRecord
rows [] = []
rows (id ∷ ids) = row id ∷ rows ids

abbrev no_rows : List String → List PromiseRecord
no_rows ids = []

abbrev itself : String → String
itself s = s

batch_found :
    submit_calls String itself itself no_rows rows ("a" ∷ "b" ∷ [])
    ≡ submitted (row "a" ∷ row "b" ∷ [])
unfolding submit_calls
batch_found = refl

submit_calls-Matches_example :
    Matches String itself itself no_rows rows ("a" ∷ "b" ∷ []) (row "a" ∷ row "b" ∷ [])
submit_calls-Matches_example =
    submit_calls-Matches String itself itself no_rows rows ("a" ∷ "b" ∷ []) (row "a" ∷ row "b" ∷ [])
      batch_found
