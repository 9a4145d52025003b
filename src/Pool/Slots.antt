-- ===== src/Pool/Slots.antt =====
-- The slots of SkeletonPool in reaper/pool.py: Slot, slot_for, drop and sync_slots. A descriptor is
-- the flag of its being open. The names, paths, times and tasks of a slot that only the log, the file
-- system and the event loop read are left out.
use reaper.Base.{
  ℕ, String, Bool, true, false, Option, none, some, List, [], ◌∷◌, if◌then◌else◌, ◌==◌, nat_eq,
}
use reaper.Base.Dict.{Dict, get, put, remove}
use reaper.Control.Types.{SkeletonId, SkeletonState, ControlSlot, ControlEffect, ReaperCore}
use reaper.Control.Core.{identity_eq}
use reaper.Pool.Futures.{Futures}
use reaper.Pool.Recovery.{Recovery}
use reaper.Pool.Faults.{Circuit}
use reaper.Pool.Heartbeat.{HeartbeatWatch, init}

pub record Slot : Type 0 where
  pub identity : SkeletonId
  pub control : Bool
  pub death_writer : Bool
  pub beat_fd : Bool
  pub heartbeat : HeartbeatWatch
  pub pid : ℕ
  pub state : SkeletonState
  pub job_id : Option String
  pub expected_stop : Bool
  pub fault_kind : String
  pub fault_text : String
  pub fault_trace : String

-- What the driver asks of the system and of the event loop, in order.
pub data Call : Type 0 where
  send_run send_stop : ControlEffect → Call
  close_death close_control close_beat : SkeletonId → Call
  waitpid killpg : ℕ → Call

-- The messages among the calls.
abbrev pub sends_in : List Call → List ControlEffect
sends_in [] = []
sends_in (Call.send_run e ∷ cs) = e ∷ sends_in cs
sends_in (Call.send_stop e ∷ cs) = e ∷ sends_in cs
sends_in (c ∷ cs) = sends_in cs

pub record SkeletonPool : Type 0 where
  pub core : ReaperCore
  pub slots : Dict ℕ Slot
  pub retired_slots : Dict SkeletonId Slot
  pub futures : Futures
  pub recovery : Recovery
  pub circuit : Circuit
  pub calls : List Call
  pub started : Bool
  pub queue_limit : ℕ

-- Slot(identity=..., control=..., ...) of spawn_effect
abbrev pub new_slot : SkeletonId → ℕ → Slot
new_slot identity pid = record {
  identity = identity;
  control = true;
  death_writer = true;
  beat_fd = true;
  heartbeat = init;
  pid = pid;
  state = SkeletonState.starting;
  job_id = none;
  expected_stop = false;
  fault_kind = "";
  fault_text = "";
  fault_trace = "";
}

-- The live slot of an identity.
abbrev pub live_slot : SkeletonPool → SkeletonId → Option Slot
live_slot p i = elim (get p.slots i.fd) [
  | none ↦ none
  | some slot ↦ if slot.identity == i then some slot else none
]

abbrev pub or_else {ℓ} : {A : Type ℓ} → Option A → Option A → Option A
or_else none other = other
or_else (some a) other = some a

unfoldable pub slot_for : SkeletonPool → Option SkeletonId → Option Slot
slot_for p none = none
slot_for p (some i) = or_else (live_slot p i) (get p.retired_slots i)

-- A write to the object that `slot_for` gives, in the table that holds it.
unfoldable pub write_slot : SkeletonPool → Slot → SkeletonPool
write_slot p slot = elim (live_slot p slot.identity) [
  | none ↦ record p { retired_slots = put p.retired_slots slot.identity slot }
  | some old ↦ record p { slots = put p.slots slot.identity.fd slot }
]

-- `drop`: out of the live slots if it is one of them, and among the retired ones.
unfoldable pub drop : SkeletonPool → Slot → SkeletonPool
drop p slot = elim (live_slot p slot.identity) [
  | none ↦ record p {
    retired_slots = put p.retired_slots slot.identity (record slot { state = SkeletonState.dead });
  }
  | some old ↦ record p {
    slots = remove p.slots slot.identity.fd;
    retired_slots = put p.retired_slots slot.identity (record slot { state = SkeletonState.dead });
  }
]

abbrev pub synced : Dict ℕ ControlSlot → ℕ → Slot → Slot
synced table fd slot = elim (get table fd) [
  | none ↦ slot
  | some core_slot ↦
      if core_slot.identity == slot.identity
      then record slot { state = core_slot.state; job_id = core_slot.job }
      else slot
]

-- The loop of `sync_slots` over the live slots.
unfoldable pub sync_each : Dict ℕ ControlSlot → Dict ℕ Slot → Dict ℕ Slot
sync_each table [] = []
sync_each table ((fd, slot) ∷ rest) = (fd, synced table fd slot) ∷ sync_each table rest

unfoldable pub sync_slots : SkeletonPool → SkeletonPool
unfolding sync_each
sync_slots p = record p { slots = sync_each p.core.slots p.slots }
