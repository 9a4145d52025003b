-- ===== src/Pool/Futures.antt =====
-- resolve and fail of SkeletonPool in reaper/pool.py: the futures of the submitted jobs. The notes of the
-- children's results are texts.
use reaper.Base.{String, Bool, Option, none, some, List, [], ◌∷◌, if◌then◌else◌, string_eq}
use reaper.Base.Dict.{Dict, get, remove}
use reaper.Control.Types.{EffectKind, FailureReason, ControlEffect}

-- The message of a result.
pub record Note : Type 0 where
  pub value : Option String
  pub kind : Option String
  pub text : Option String
  pub trace : Option String

-- What a future is completed with: a value, RemoteWorkerError or CancelledError.
pub data Answer : Type 0 where
  gives : Option String → Answer
  remote_error : String → String → String → Answer
  cancelled : Answer

-- The pool's jobs, each with whether its future is done already, the results that came, and the
-- futures that were completed, newest first.
pub record Futures : Type 0 where
  pub jobs : Dict String Bool
  pub results : Dict String Note
  pub completed : List (String × Answer)

-- `effect.job or ""`
abbrev pub job_of : ControlEffect → String
job_of e = elim e.job [ none ↦ "" | some job ↦ job ]

abbrev pub text_or : String → Option String → String
text_or other none = other
text_or other (some text) = text

abbrev pub note_of : Futures → String → Note
note_of p job = elim (get p.results job) [
  | none ↦ record { value = none; kind = none; text = none; trace = none }
  | some note ↦ note
]

abbrev pub popped : String → Futures → Futures
popped job p = record p { jobs = remove p.jobs job; results = remove p.results job }

-- A future that is there and not done is completed.
abbrev pub complete : Option Bool → String → Answer → Futures → Futures
complete none job answer p = popped job p
complete (some done) job answer p =
    if done then popped job p else record (popped job p) { completed = (job, answer) ∷ p.completed }

unfoldable pub resolve : ControlEffect → Futures → Futures
resolve e p = complete (get p.jobs (job_of e)) (job_of e) (gives (note_of p (job_of e)).value) p

abbrev pub fault_of : Option FailureReason → Note → Answer
fault_of none note = remote_error "ChildDied" "lost child EOF" ""
fault_of (some FailureReason.worker_error) note =
    remote_error (text_or "Error" note.kind) (text_or "" note.text) (text_or "" note.trace)
fault_of (some FailureReason.closed) note = cancelled
fault_of (some FailureReason.worker_died) note = remote_error "ChildDied" "lost child EOF" ""

unfoldable pub fail : ControlEffect → Futures → Futures
fail e p = complete (get p.jobs (job_of e)) (job_of e) (fault_of e.reason (note_of p (job_of e))) p

-- RESOLVE and FAIL of `drive`; the other effects leave the futures.
unfoldable pub answer : ControlEffect → Futures → Futures
unfolding resolve fail
answer e p = elim e.kind [ EffectKind.resolve ↦ resolve e p | EffectKind.fail ↦ fail e p | _ ↦ p ]

unfoldable pub answer_all : List ControlEffect → Futures → Futures
unfolding answer
answer_all [] p = p
answer_all (e ∷ es) p = answer_all es (answer e p)
