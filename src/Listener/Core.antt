-- ===== src/Listener/Core.antt =====
-- PostgresListener of reaper/postgres.py. The driver's calls and the clock are the input; times are
-- natural numbers of one unit, and the clock never goes back, so `now - t` is a truncated subtraction.
use reaper.Base.{
  ℕ, suc, ◌-◌, min, Bool, true, false, not, ◌&&◌, ◌==◌, nat_eq, ◌||◌, if◌then◌else◌, leb,
}

-- `opened` and `closed` count the connections that the listener has had.
pub record PostgresListener : Type 0 where
  pub recycle_rate : ℕ
  pub probe_rate : ℕ
  pub connection : Bool
  pub connected_at : ℕ
  pub probed_at : ℕ
  pub notified : Bool
  pub opened : ℕ
  pub closed : ℕ

pub data ListenerActivity : Type 0 where
  probed recycled idle : ListenerActivity

pub data ListenerWake : Type 0 where
  notified fallback : ListenerWake

-- A method's end: the listener as it is left, with the value, or with an exception.
pub data Ended {ℓ} (A : Type ℓ) : Type ℓ where
  returned : A → PostgresListener → Ended A
  raised : PostgresListener → Ended A

-- Whether the connection is made, whether LISTEN succeeds on it, the time after it, and whether the
-- predecessor can be closed.
pub record Connect : Type 0 where
  pub connects : Bool
  pub listens : Bool
  pub now : ℕ
  pub closes : Bool

-- The listener with a new connection in the place of its predecessor, which is still open.
abbrev pub replaced : Connect → PostgresListener → PostgresListener
replaced c l = record l {
  connection = true;
  connected_at = c.now;
  probed_at = c.now;
  notified = true;
  opened = suc l.opened;
}

abbrev pub close_one : PostgresListener → PostgresListener
close_one l = record l { closed = suc l.closed }

unfoldable pub connect : Connect → PostgresListener → Ended {0} Unit
connect c l =
    if not c.connects
    then raised l
    else if not c.listens
    then raised (close_one (record l { opened = suc l.opened }))
    else if not l.connection
    then returned tt (replaced c l)
    else if c.closes
    then returned tt (close_one (replaced c l))
    else raised (close_one (replaced c l))

unfoldable pub close : Bool → PostgresListener → Ended {0} Unit
close closes l =
    if not l.connection
    then returned tt l
    else if closes
    then returned tt (close_one (record l { connection = false }))
    else raised (close_one (record l { connection = false }))

-- What a probe does: it succeeds at a time, finds the connection gone, or raises something else.
pub data Probe : Type 0 where
  answered : ℕ → Probe
  gone other : Probe

pub record Maintain : Type 0 where
  pub now : ℕ
  pub is_closed : Bool
  pub probe : Probe
  pub connect : Connect

-- `await self.connect()`, `return ListenerActivity.RECYCLED`
abbrev pub recycle : Ended {0} Unit → Ended ListenerActivity
recycle (returned u l) = returned ListenerActivity.recycled l
recycle (raised l) = raised l

unfoldable pub run_probe : Maintain → PostgresListener → Ended ListenerActivity
unfolding connect
run_probe m l = elim m.probe [
  | answered later ↦ returned ListenerActivity.probed (record l { probed_at = later })
  | gone ↦ recycle (connect m.connect l)
  | other ↦ raised l
]

unfoldable pub maintain : Maintain → PostgresListener → Ended ListenerActivity
unfolding connect run_probe
maintain m l =
    if not l.connection || m.is_closed || leb l.recycle_rate (m.now - l.connected_at)
    then recycle (connect m.connect l)
    else if leb l.probe_rate (m.now - l.probed_at)
    then run_probe m l
    else returned ListenerActivity.idle l

abbrev pub disarm : Ended ListenerActivity → Ended ListenerActivity
disarm (returned a l) = returned a (record l { notified = false })
disarm (raised l) = raised l

unfoldable pub arm : Maintain → PostgresListener → Ended ListenerActivity
unfolding maintain
arm m l = disarm (maintain m l)

-- A delivered notification.
unfoldable pub receive : PostgresListener → PostgresListener
receive l = record l { notified = true }

-- The sleep of `wait`.
unfoldable pub timeout : ℕ → ℕ → PostgresListener → ℕ
timeout fallback_rate now l =
    min fallback_rate
      (min (l.recycle_rate - (now - l.connected_at)) (l.probe_rate - (now - l.probed_at)))

abbrev pub with_wake :
    ListenerWake → Ended ListenerActivity → Ended (ListenerWake × ListenerActivity)
with_wake w (returned a l) = returned (w, a) l
with_wake w (raised l) = raised l

-- `now` is the clock before the sleep, and `arrives` says whether a notification is delivered before its
-- end. asyncio.wait_for with a timeout of 0 raises TimeoutError, also when the event has been set.
unfoldable pub wait :
    ℕ → ℕ → Bool → Maintain → PostgresListener → Ended (ListenerWake × ListenerActivity)
unfolding maintain receive timeout
wait fallback_rate now arrives m l =
    let woken = if arrives then receive l else l in
    with_wake
      (if woken.notified && not (timeout fallback_rate now l == 0)
        then ListenerWake.notified
        else ListenerWake.fallback)
      (maintain m woken)
