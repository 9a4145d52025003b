-- ===== src/Child/General.antt =====
-- child_loop of reaper/pool.py: a child that runs the parent's jobs one at a time. Its input is what
-- each read_message gives; a send that fails raises.
use reaper.Base.{
  String, ◌≡◌, Bool, true, false, Option, none, some, List, [], ◌∷◌, ◌++◌, ◌==◌, string_eq,
  if◌then◌else◌,
}
use reaper.Skeleton.Types.{
  SkeletonPhase, ListenerPhase, LifecycleKind, SkeletonCore, Outcome, WorkOutcome,
}
use reaper.Skeleton.Driver.{event, about, core}
use reaper.Child.Types.{Message, Action, report, send, Ending, waiting, returned, raised}

-- A note: the closed socket, STOP, another known operation, an unknown one, or RUN with the work's id,
-- whether STATE could be sent, the work's outcome, and whether RESULT could be sent.
pub data Note : Type 0 where
  gone stop other unknown : Note
  run : String → Bool → Bool → Bool → Note

abbrev pub work_outcome : Bool → Option Outcome
work_outcome true = some (Outcome.work WorkOutcome.succeeded)
work_outcome false = some (Outcome.work WorkOutcome.failed)

-- The `finally` of the loop.
abbrev pub stop_child : List Action
stop_child = report (event LifecycleKind.stop) ∷ report (event LifecycleKind.stopped) ∷ []

-- The rounds of `while running`.
unfoldable pub serve : List Note → List Action × Ending
serve [] = ([], waiting)
serve (Note.gone ∷ notes) = (stop_child, returned)
serve (Note.stop ∷ notes) = (stop_child, returned)
serve (Note.other ∷ notes) = (stop_child, returned)
serve (Note.unknown ∷ notes) = (stop_child, raised)
serve (Note.run id state_sent ok result_sent ∷ notes) =
    let rest = serve notes in
    let started = about LifecycleKind.work_started id 0 none none in
    let finished = about LifecycleKind.work_finished id 0 (work_outcome ok) none in
    if state_sent
    then (if result_sent
        then (
          report started
              ∷ send Message.state
              ∷ report finished
              ∷ send (Message.result id ok)
              ∷ rest.0,
          rest.1,
        )
        else (report started ∷ send Message.state ∷ report finished ∷ stop_child, raised))
    else (report started ∷ stop_child, raised)

unfoldable pub child_loop : Bool → List Note → List Action × Ending
unfolding serve
child_loop ready_sent notes =
    let (acts, ending) = serve notes in
    let begin = report (event LifecycleKind.start) ∷ report (event LifecycleKind.ready) ∷ [] in
    if ready_sent then (begin ++ send Message.ready ∷ acts, ending) else (begin, raised)

-- The parent's work ids are not empty.
abbrev pub IsNamedNote : Note → Type 0
IsNamedNote (Note.run id s ok r) = (id == "") ≡ false
IsNamedNote n = Unit

abbrev pub idle : SkeletonCore
idle = core SkeletonPhase.idle ListenerPhase.closed 0

abbrev pub dead : SkeletonCore
dead = core SkeletonPhase.dead ListenerPhase.closed 0

-- Where the lifecycle core stands when the loop is left.
abbrev pub left_in : Ending → SkeletonCore
left_in waiting = idle
left_in returned = dead
left_in raised = dead
