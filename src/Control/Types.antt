-- ===== src/Control/Types.antt =====
-- The events, effects and state of reaper/control.py. File descriptors and generations are natural
-- numbers; pydantic's strict validation of the fields is their type.
use reaper.Base.{ℕ, String, Bool, Option, List}
use reaper.Base.Dict.{Dict}

pub data SkeletonState : Type 0 where
  starting idle running stopping dead : SkeletonState

pub record SkeletonId : Type 0 where
  pub fd : ℕ
  pub gen : ℕ

pub data EventKind : Type 0 where
  start recover spawned spawn_failed ready submit result eof send_failed close deadline : EventKind

pub data EffectKind : Type 0 where
  spawn send_run send_stop close_death resolve fail drop close_control reap kill : EffectKind

pub data FailureReason : Type 0 where
  worker_error worker_died closed : FailureReason

pub record ControlEvent : Type 0 where
  pub kind : EventKind
  pub identity : Option SkeletonId
  pub gen : Option ℕ
  pub job : Option String
  pub ok : Bool

pub record ControlEffect : Type 0 where
  pub kind : EffectKind
  pub identity : Option SkeletonId
  pub gen : Option ℕ
  pub job : Option String
  pub reason : Option FailureReason

pub record ControlSlot : Type 0 where
  pub identity : SkeletonId
  pub state : SkeletonState
  pub job : Option String

pub record ControlView : Type 0 where
  pub closing : Bool
  pub slots : List ControlSlot
  pub pending_spawns : List ℕ
  pub queue : List String
  pub done : List String
  pub failed : List String

pub record ReaperCore : Type 0 where
  pub target : ℕ
  pub closing : Bool
  pub slots : Dict ℕ ControlSlot
  pub pending_spawns : List ℕ
  pub queue : List String
  pub done : List String
  pub failed : List String
  pub next_gen : ℕ
