-- ===== src/Pool/Teardown.antt =====
-- close and finish_close of reaper/pool.py, up to the clearing of the tables.
use reaper.Base.{true, false, not, List, [], ◌∷◌, if◌then◌else◌, nat_eq, string_eq}
use reaper.Base.Dict.{values}
use reaper.Control.Types.{SkeletonId, EventKind}
use reaper.Pool.Recovery.{absent}
use reaper.Pool.Slots.{Slot, SkeletonPool}
use reaper.Pool.Drive.{Host, Driven, driven}
use reaper.Pool.Operations.{◌>>=◌, Incoming, perform, plain_event, read_slot, slot_event}

-- The loop of `finish_close` over the slots that are left.
unfoldable pub end_each : Host → List Slot → SkeletonPool → Driven
unfolding perform
end_each host [] p = driven p
end_each host (slot ∷ rest) p =
    perform host (slot_event EventKind.eof slot.identity) p >>= end_each host rest

-- What the readers receive until they end or the timeout cancels them.
unfoldable pub receive_all : Host → List (SkeletonId × Incoming) → SkeletonPool → Driven
unfolding read_slot
receive_all host [] p = driven p
receive_all host ((i, message) ∷ rest) p = read_slot host i message p >>= receive_all host rest

abbrev pub shut_down : SkeletonPool → Driven
shut_down p =
    driven (record p { slots = []; futures = record p.futures { jobs = [] }; started = false })

-- `closing` set and the recovery task cancelled.
abbrev pub closing_down : SkeletonPool → SkeletonPool
closing_down p = record p {
  recovery = record p.recovery { closing = true; recovery_task = absent };
}

-- `finish_close` up to the clearing of the tables.
unfoldable pub wind_down : Host → List (SkeletonId × Incoming) → SkeletonPool → Driven
unfolding perform receive_all end_each
wind_down host arrivals p =
    perform host (plain_event EventKind.close) (closing_down p)
    >>= receive_all host arrivals
    >>= perform host (plain_event EventKind.deadline)
    >>= (λ q. end_each host (values q.slots) q)

unfoldable pub close : Host → List (SkeletonId × Incoming) → SkeletonPool → Driven
unfolding wind_down
close host arrivals p = if not p.started then driven p else wind_down host arrivals p >>= shut_down
