-- ===== src/Pool/Watching.antt =====
-- monitor_heartbeats of reaper/pool.py: the rounds of its loop.
use reaper.Pool.Operations.{◌>>=◌}
use reaper.Base.{
  ℕ, ◌*◌, max, String, Bool, true, false, not, ◌||◌, Option, none, some, List, [], ◌∷◌,
  if◌then◌else◌, nat_eq, string_eq,
}
use reaper.Base.Dict.{values}
use reaper.Pool.Heartbeat.{HeartbeatWatch, observe}
use reaper.Pool.Slots.{Slot, Call, SkeletonPool, write_slot}
use reaper.Pool.Drive.{Driven, driven, raised, called}

-- What a read of a heartbeat file gives: its marker, or the text of an OSError.
pub data Reading : Type 0 where
  marker : ℕ → Reading
  read_error : String → Reading

-- The marker that the watch observes; a read that fails sees the old one again.
abbrev pub observed : Slot → Reading → ℕ
observed slot (marker m) = m
observed slot (read_error text) = slot.heartbeat.marker

abbrev pub beat_fault : Slot → Reading → Slot
beat_fault slot (marker m) = record slot {
  fault_kind = "HeartbeatTimeout";
  fault_text = "skeleton heartbeat marker stopped changing";
}
beat_fault slot (read_error text) = record slot {
  fault_kind = "HeartbeatReadError";
  fault_text = text;
}

-- The slot after a probe that told whether its child lives. A dead child's group is killed; its
-- connection then ends.
abbrev pub watched : ℕ → Reading → Slot → HeartbeatWatch × Bool → SkeletonPool → SkeletonPool
watched now read slot (watch, true) p = write_slot p (record slot { heartbeat = watch })
watched now read slot (watch, false) p =
    called
      (write_slot p
        (record (beat_fault slot read) { heartbeat = record watch { unchanged_since = now } }))
      (Call.killpg slot.pid ∷ [])

abbrev pub judged : ℕ → Reading → Slot → SkeletonPool → Option (HeartbeatWatch × Bool) → Driven
judged now read slot p none = raised p
judged now read slot p (some told) = driven (watched now read slot told p)

-- A probe of one slot.
unfoldable pub watch_slot : ℕ → ℕ → Reading → Slot → SkeletonPool → Driven
watch_slot timeout now read slot p =
    if not slot.beat_fd
    then driven p
    else judged now read slot p (observe slot.heartbeat (observed slot read) now timeout)

unfoldable pub watch_each : ℕ → ℕ → (Slot → Reading) → List Slot → SkeletonPool → Driven
unfolding watch_slot
watch_each timeout now read [] p = driven p
watch_each timeout now read (slot ∷ rest) p =
    watch_slot timeout now (read slot) slot p >>= watch_each timeout now read rest

-- A round of `monitor_heartbeats`, in milliseconds.
unfoldable pub watch_heartbeats : ℕ → ℕ → (Slot → Reading) → SkeletonPool → Driven
unfolding watch_each
watch_heartbeats beat_rate now read p =
    if not p.started || p.recovery.closing
    then driven p
    else watch_each (max (beat_rate * 5) 1000) now read (values p.slots) p
