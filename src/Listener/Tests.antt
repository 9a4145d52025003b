-- ===== src/Listener/Tests.antt =====
-- Runs of PostgresListener of reaper/postgres.py, and the theorems at concrete inputs.
use reaper.Base.{List, [], false, refl, true, ◌∷◌, ◌≡◌}
use reaper.Listener.Core.{
  PostgresListener, ListenerActivity, ListenerWake, returned, Connect, Maintain, Probe, maintain,
  arm, receive, wait,
}
use reaper.Listener.Connections.{
  IsBalanced, Use, connects, arms, receives, waits, closes, run, run-IsBalanced, Wakes, wait-arm,
}

abbrev fresh : PostgresListener
fresh = record {
  recycle_rate = 300;
  probe_rate = 30;
  connection = false;
  connected_at = 0;
  probed_at = 0;
  notified = false;
  opened = 0;
  closed = 0;
}

abbrev reconnect : Connect
reconnect = record { connects = true; listens = true; now = 10; closes = false }

abbrev later : Maintain
later = record { now = 40; is_closed = false; probe = Probe.gone; connect = reconnect }

abbrev uses : List Use
uses = connects reconnect ∷ arms later ∷ receives ∷ waits 60 30 false later ∷ closes true ∷ []

run-IsBalanced_example : IsBalanced (run uses fresh)
run-IsBalanced_example = run-IsBalanced uses fresh refl

abbrev connected : PostgresListener
connected = record fresh {
  connection = true;
  connected_at = 10;
  probed_at = 10;
  opened = 1;
  notified = true;
}

abbrev soon : Maintain
soon = record later { now = 12 }

arms_soon :
    arm soon connected ≡ returned ListenerActivity.idle (record connected { notified = false })
unfolding arm maintain
arms_soon = refl

wait-arm_example :
    Wakes ListenerWake.notified
      (wait 60 12 false soon (receive (record connected { notified = false })))
wait-arm_example =
    wait-arm soon soon connected (record connected { notified = false }) ListenerActivity.idle 60 12
      true false arms_soon
