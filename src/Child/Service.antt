-- ===== src/Child/Service.antt =====
-- service_child_loop of reaper/pool.py: a child that runs one resident service and starts it again
-- after a backoff. Times are natural numbers of one unit. What the waits find is the input.
use reaper.Base.{ℕ, String, ◌*◌, min, Bool, true, false, List, [], ◌∷◌, ◌++◌, map, if◌then◌else◌}
use reaper.Skeleton.Types.{LifecycleKind, LifecycleEvent}
use reaper.Skeleton.Driver.{event}
use reaper.Child.Types.{Message, Action, report, send, sleep, Ending, waiting, returned, raised}

-- One round of the loop: what the service reports up to the first wait and after it, which tasks the
-- waits found done, whether the sends succeeded, and the service's fault (its type, text, SQLSTATE, and
-- the line that FAULT carries).
pub record Round : Type 0 where
  pub before : List LifecycleEvent
  pub after : List LifecycleEvent
  pub stop_before : Bool
  pub stop_first : Bool
  pub healthy : Bool
  pub announce_sent : Bool
  pub stop_serving : Bool
  pub kind : String
  pub text : String
  pub code : String
  pub detail : String
  pub fault_sent : Bool
  pub stop_delay : Bool

pub record Loop : Type 0 where
  pub backoff : ℕ
  pub announced : Bool

-- A round goes on, breaks, or ends with the exception of a failed send.
pub data Next : Type 0 where
  again : Loop → Next
  broken failed : Next

-- `{"op": op.value}`
abbrev pub announcement : Bool → Message
announcement true = Message.healthy
announcement false = Message.ready

-- A SERVICE_FAULT that cannot be sent is only logged.
abbrev pub fault_message : Round → List Action
fault_message r =
    if r.fault_sent then send (Message.service_fault r.kind r.text r.code) ∷ [] else []

unfoldable pub fail_round : Round → ℕ → List Action
fail_round r backoff =
    report (record (event LifecycleKind.fault) { detail = r.detail }) ∷ fault_message r
    ++ sleep backoff ∷ []

-- The end of a round after a fault.
unfoldable pub back_off : ℕ → Round → Loop → List Action × Next
unfolding fail_round
back_off retry_max r l =
    if r.stop_delay
    then (fail_round r l.backoff, broken)
    else (fail_round r l.backoff, again (record l { backoff = min (l.backoff * 2) retry_max }))

-- The healthy branch once READY or HEALTHY has been sent.
unfoldable pub serve_on : ℕ → ℕ → Round → Loop → List Action × Next
unfolding back_off
serve_on retry_base retry_max r l =
    if r.stop_serving
    then (map report r.after, broken)
    else let (acts, next) =
        back_off retry_max r (record { backoff = retry_base; announced = true }) in
      (map report r.after ++ acts, next)

-- The healthy branch: a send that fails leaves the loop.
unfoldable pub announce : ℕ → ℕ → Round → Loop → List Action × Next
unfolding serve_on
announce retry_base retry_max r l =
    if r.announce_sent
    then (
      send (announcement l.announced) ∷ (serve_on retry_base retry_max r l).0,
      (serve_on retry_base retry_max r l).1,
    )
    else ([], failed)

-- The branch of a service that ends before it is healthy.
abbrev pub falter : ℕ → Round → Loop → List Action × Next
falter retry_max r l =
    (map report r.after ++ (back_off retry_max r l).0, (back_off retry_max r l).1)

abbrev pub after_begin : Round → List Action × Next → List Action × Next
after_begin r s = (report (event LifecycleKind.start) ∷ map report r.before ++ s.0, s.1)

unfoldable pub round : ℕ → ℕ → Round → Loop → List Action × Next
unfolding announce back_off
round retry_base retry_max r l = after_begin r (
    if r.stop_first
    then (map report r.after, broken)
    else if r.healthy
    then announce retry_base retry_max r l
    else falter retry_max r l)

-- What follows the loop, which a failed `stop_task` leaves by its exception.
abbrev pub close_child : Bool → List Action × Ending
close_child stop_failed = (
  report (event LifecycleKind.stop) ∷ report (event LifecycleKind.stopped) ∷ [],
  if stop_failed then raised else returned,
)

-- What the end of a round leads to: the exception, the end of the child, or the rest of the loop.
unfoldable pub follow :
    Bool → (Loop → List Action × Ending) → List Action × Next → List Action × Ending
follow stop_failed rest (acts, failed) = (acts, raised)
follow stop_failed rest (acts, broken) =
    (acts ++ (close_child stop_failed).0, (close_child stop_failed).1)
follow stop_failed rest (acts, again l) = (acts ++ (rest l).0, (rest l).1)

-- `while not stop_task.done()`, then the end.
unfoldable pub rounds : ℕ → ℕ → Bool → List Round → Loop → List Action × Ending
unfolding follow round
rounds retry_base retry_max stop_failed [] l = ([], waiting)
rounds retry_base retry_max stop_failed (r ∷ rs) l =
    if r.stop_before
    then close_child stop_failed
    else follow stop_failed (λ l'. rounds retry_base retry_max stop_failed rs l')
        (round retry_base retry_max r l)

unfoldable pub service_child_loop : ℕ → ℕ → Bool → List Round → List Action × Ending
unfolding rounds
service_child_loop retry_base retry_max stop_failed rs =
    rounds retry_base retry_max stop_failed rs (record { backoff = retry_base; announced = false })
