-- ===== src/Child/Tests.antt =====
-- Runs of the child loops of reaper/pool.py, and the theorems at concrete inputs.
use reaper.Base.{ℕ, ◌≡◌, ◌≤◌, refl, true, false, none, some, [], ◌∷◌, List, All, arith, subst, sym}
use mathlib.Core.List.{append-nil}
use reaper.Skeleton.Types.{ResultState}
use reaper.Skeleton.Core.{init}
use reaper.Skeleton.Driver.{Accepted, Accepted-nil}
use reaper.Child.General.{Note}
use reaper.Worker.Maintenance.{Pass}
use reaper.Child.Types.{Message, reports, sleeps}
use reaper.Child.Service.{
  Round, service_child_loop, rounds, round, follow, announce, serve_on, back_off, fail_round,
}
use reaper.Child.Delays.{service_child_loop-sleeps}
use reaper.Child.Rounds.{announcements, heralds, naps}
use reaper.Child.Announce.{InOrder, service_child_loop-announces}
use reaper.Child.Lifecycle.{Suits, connecting, service_child_loop-Accepted}
use reaper.Worker.Tasks.{Claimed}
use reaper.Listener.Core.{ListenerActivity}
use reaper.Worker.Poll.{Turn, Claim, poll_tasks}
use reaper.Worker.Accepts.{poll_tasks-Accepted}

-- A task service that commits one task and then waits.
abbrev task : Claimed
task = record {
  task_id = "t";
  function = "app.charge";
  version = 2;
  loaded = some 2;
  is_mapping = true;
  result = some ResultState.resolved;
  rejected = false;
  settles = true;
}

abbrev turns : List Turn
turns =
    record { arm = some ListenerActivity.recycled; claim = Claim.took task true; wait = none }
    ∷ record { arm = some ListenerActivity.idle; claim = Claim.nothing; wait = none }
    ∷ []

-- A round that serves, and then faults.
abbrev served : Round
served = record {
  before = poll_tasks "default" true true true turns;
  after = [];
  stop_before = false;
  stop_first = false;
  healthy = true;
  announce_sent = true;
  stop_serving = false;
  kind = "builtins.OSError";
  text = "gone";
  code = "";
  detail = "OSError: gone";
  fault_sent = true;
  stop_delay = false;
}

abbrev unhealthy : Round
unhealthy = record served { before = []; healthy = false }

abbrev three : List Round
three = served ∷ unhealthy ∷ unhealthy ∷ []

backoff_doubles : sleeps (service_child_loop 250 30000 false three).0 ≡ 250 ∷ 500 ∷ 1000 ∷ []
unfolding service_child_loop rounds round follow announce serve_on back_off fail_round poll_tasks
backoff_doubles = refl

service_child_loop-sleeps_example :
    (sleeps (service_child_loop 250 30000 false three).0 ≡ naps 250 30000 250 three)
    × All (λ (d : ℕ). (250 ≤ d) × (d ≤ 30000)) (sleeps (service_child_loop 250 30000 false three).0)
service_child_loop-sleeps_example = service_child_loop-sleeps 250 30000 false three (omega arith)

service_child_loop-announces_example :
    (announcements (service_child_loop 250 30000 false (served ∷ served ∷ [])).0
      ≡ heralds false (served ∷ served ∷ []))
    × InOrder false (announcements (service_child_loop 250 30000 false (served ∷ served ∷ [])).0)
service_child_loop-announces_example =
    service_child_loop-announces 250 30000 false (served ∷ served ∷ [])

announces_in_order :
    announcements (service_child_loop 250 30000 false (unhealthy ∷ served ∷ served ∷ [])).0
    ≡ Message.ready ∷ Message.healthy ∷ []
unfolding service_child_loop rounds round follow announce serve_on back_off fail_round poll_tasks
announces_in_order = refl

nil-Suits : Suits unhealthy
nil-Suits g = Accepted-nil _

served-Suits : Suits served
served-Suits g =
    subst (Accepted (connecting g)) (sym (append-nil served.before))
      (poll_tasks-Accepted g "default" true true true turns (refl, (tt, tt)))

service_child_loop-Accepted_example :
    Accepted init (reports (service_child_loop 250 30000 false three).0)
service_child_loop-Accepted_example =
    service_child_loop-Accepted 250 30000 false three (served-Suits, (nil-Suits, (nil-Suits, tt)))

poll_tasks-Accepted_example : Accepted (connecting 3) (poll_tasks "default" true true true turns)
poll_tasks-Accepted_example = poll_tasks-Accepted 3 "default" true true true turns (refl, (tt, tt))

abbrev pass : Pass
pass = record { due = true; now = 60; gc = λ n. some 10000 }

-- A child that runs two jobs, of which the second fails, and stops.
abbrev notes : List Note
notes = Note.run "1-a" true true true ∷ Note.run "2-b" true false true ∷ Note.stop ∷ []
