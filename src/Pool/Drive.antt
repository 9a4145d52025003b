-- ===== src/Pool/Drive.antt =====
-- drive of SkeletonPool in reaper/pool.py: the effects of the core carried out from the front of a
-- queue that their own outcomes grow. What the system answers is a parameter; no other task of the pool
-- runs between two effects, and the reader of a dropped slot has been cancelled.
use reaper.Base.{
  ℕ, zero, suc, Bool, true, false, not, none, some, List, [], ◌∷◌, ◌++◌, if◌then◌else◌, nat_eq,
}
use reaper.Base.Dict.{put, remove}
use reaper.Control.Types.{
  SkeletonId, EventKind, EffectKind, ControlEvent, ControlEffect, ReaperCore,
}
use reaper.Control.Apply.{Outcome, applied, assertion_error, apply}
use reaper.Pool.Futures.{resolve, fail}
use reaper.Pool.Recovery.{schedule_recovery}
use reaper.Pool.Faults.{open_circuit, Reason}
use reaper.Pool.Spawn.{System, Spawned, started, failed, too_large, spawn_effect}
use reaper.Pool.Slots.{Slot, Call, SkeletonPool, new_slot, slot_for, write_slot, drop, sync_slots}
use reaper.Control.Core.{identity_eq}

-- What the system answers, given the pool as it stands: the calls of a spawn, whether the process is
-- there to be waited for, and whether killing its group raises an OSError, after a wait in a REAP or in a
-- KILL. A group that is not there raises none.
pub record Host : Type 0 where
  pub spawn : SkeletonPool → ℕ → System
  pub child_there : SkeletonPool → ℕ → Bool
  pub kill_fails : SkeletonPool → ℕ → Bool
  pub kill_raises : SkeletonPool → ℕ → Bool

-- One round of the loop: the pool and the effects to append, or the exception that `core.apply`,
-- `spawn_effect` or the kill of a KILL raises out of `drive`.
pub data Turn : Type 0 where
  went : SkeletonPool → List ControlEffect → Turn
  threw : SkeletonPool → Turn

abbrev pub with_core : SkeletonPool → ReaperCore → SkeletonPool
with_core p c = record p { core = c }

abbrev pub called : SkeletonPool → List Call → SkeletonPool
called p more = record p { calls = p.calls ++ more }

-- self.core.apply(event)
abbrev pub fed : SkeletonPool → Outcome → Turn
fed p (applied c effects) = went (with_core p c) effects
fed p (assertion_error c) = threw (with_core p c)

unfoldable pub feed : ControlEvent → SkeletonPool → Turn
feed e p = fed p (apply p.core e)

-- The slots are synchronised at the end of a round that does not `continue`.
abbrev pub synced_turn : Turn → Turn
synced_turn (went p more) = went (sync_slots p) more
synced_turn (threw p) = threw p

abbrev pub recovering : Turn → Turn
recovering (went p more) = went (record p { recovery = schedule_recovery p.recovery true }) more
recovering (threw p) = threw p

abbrev pub spawned_event : SkeletonId → ControlEvent
spawned_event i = record {
  kind = EventKind.spawned;
  identity = some i;
  gen = some i.gen;
  job = none;
  ok = false;
}

abbrev pub spawn_failed_event : ℕ → ControlEvent
spawn_failed_event gen = record {
  kind = EventKind.spawn_failed;
  identity = none;
  gen = some gen;
  job = none;
  ok = false;
}

-- SPAWN, once `spawn_effect` has ended.
unfoldable pub drive_spawned : ℕ → Spawned → SkeletonPool → Turn
unfolding feed
drive_spawned gen (started fd pid held) p =
    let i : SkeletonId = record { fd = fd; gen = gen } in
    synced_turn (feed (spawned_event i) (record p { slots = put p.slots fd (new_slot i pid) }))
drive_spawned gen (failed held) p = recovering (feed (spawn_failed_event gen) p)
drive_spawned gen too_large p = threw p

-- The wait of a REAP for the process: when it was there, what is left of its group is killed, and an
-- OSError of that opens the circuit.
unfoldable pub wait_child : Host → Slot → SkeletonPool → SkeletonPool
wait_child host slot p =
    let waited = called p (Call.waitpid slot.pid ∷ []) in
    let group = called waited (Call.killpg slot.pid ∷ []) in
    if not (host.child_there p slot.pid)
    then waited
    else if host.kill_fails waited slot.pid
    then record group { circuit = open_circuit group.circuit (Reason.descendants slot.pid) }
    else group

-- The heartbeat file of a REAP is closed once.
unfoldable pub close_beat : Slot → SkeletonPool → SkeletonPool
close_beat slot p =
    if slot.beat_fd
    then called (write_slot p (record slot { beat_fd = false }))
        (Call.close_beat slot.identity ∷ [])
    else p

unfoldable pub reap_slot : Host → Slot → SkeletonPool → SkeletonPool
unfolding wait_child close_beat
reap_slot host slot p =
    let closed = close_beat slot (wait_child host slot p) in
    record closed { retired_slots = remove closed.retired_slots slot.identity }

-- The effects on one slot, once `slot_for` has found it. A CLOSE_DEATH closes the writer once, and
-- closing a closed socket does nothing.
unfoldable pub drive_slot : Host → EffectKind → ControlEffect → Slot → SkeletonPool → SkeletonPool
unfolding reap_slot
drive_slot host EffectKind.send_stop e slot p = write_slot p (record slot { expected_stop = true })
drive_slot host EffectKind.close_death e slot p =
    if slot.death_writer
    then called (write_slot p (record slot { death_writer = false }))
        (Call.close_death slot.identity ∷ [])
    else p
drive_slot host EffectKind.close_control e slot p =
    if slot.control
    then called (write_slot p (record slot { control = false }))
        (Call.close_control slot.identity ∷ [])
    else p
drive_slot host EffectKind.drop e slot p = drop p slot
drive_slot host EffectKind.reap e slot p = reap_slot host slot p
drive_slot host EffectKind.kill e slot p =
    called (write_slot p (record slot { expected_stop = true })) (Call.killpg slot.pid ∷ [])
drive_slot host k e slot p = p

-- The slot that an effect names, if there is one.
unfoldable pub on_slot : Host → ControlEffect → SkeletonPool → SkeletonPool
unfolding drive_slot
on_slot host e p = elim (slot_for p e.identity) [
  | none ↦ p
  | some slot ↦ drive_slot host e.kind e slot p
]

-- What an effect other than a SPAWN does.
unfoldable pub carry : Host → EffectKind → ControlEffect → SkeletonPool → SkeletonPool
unfolding on_slot
carry host EffectKind.send_run e p = called p (Call.send_run e ∷ [])
carry host EffectKind.send_stop e p = called (on_slot host e p) (Call.send_stop e ∷ [])
carry host EffectKind.resolve e p = record p { futures = resolve e p.futures }
carry host EffectKind.fail e p = record p { futures = fail e p.futures }
carry host k e p = on_slot host e p

-- The OSError of a KILL, which nothing catches.
abbrev pub kill_fault : Host → ControlEffect → SkeletonPool → Bool
kill_fault host e p = elim (slot_for p e.identity) [
  | none ↦ false
  | some slot ↦ host.kill_raises p slot.pid
]

-- `match effect.kind`; a SPAWN without a generation is the last case, which synchronises nothing.
unfoldable pub drive_effect : Host → EffectKind → ControlEffect → SkeletonPool → Turn
unfolding drive_spawned carry
drive_effect host EffectKind.spawn e p = elim e.gen [
  | none ↦ went p []
  | some gen ↦ drive_spawned gen (spawn_effect (host.spawn p gen)) p
]
drive_effect host EffectKind.kill e p =
    if kill_fault host e p
    then threw (carry host EffectKind.kill e p)
    else went (sync_slots (carry host EffectKind.kill e p)) []
drive_effect host k e p = went (sync_slots (carry host k e p)) []

-- What `drive` leaves: the pool, the exception that it raises, or the effects that the fuel does not
-- cover.
pub data Driven : Type 0 where
  driven : SkeletonPool → Driven
  raised : SkeletonPool → Driven
  unfinished : SkeletonPool → List ControlEffect → Driven

-- `while pending`, on fuel: one unit for each effect.
unfoldable pub drive : Host → ℕ → List ControlEffect → SkeletonPool → Driven
unfolding drive_effect
drive host fuel [] p = driven (sync_slots p)
drive host zero (e ∷ pending) p = unfinished p (e ∷ pending)
drive host (suc fuel) (e ∷ pending) p = elim (drive_effect host e.kind e p) [
  | went p' more ↦ drive host fuel (pending ++ more) p'
  | threw p' ↦ raised p'
]
