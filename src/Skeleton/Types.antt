-- ===== src/Skeleton/Types.antt =====
-- The phases, events and effects of reaper/skeleton.py, and ResultState of reaper/models.py. Version
-- numbers and generations are natural numbers.
use reaper.Base.{ℕ, String, Option}

pub data ResultState : Type 0 where
  resolved rejected retry suspended : ResultState

pub data SkeletonPhase : Type 0 where
  starting connecting idle running settling backoff stopping dead : SkeletonPhase

pub data ListenerPhase : Type 0 where
  closed listening : ListenerPhase

pub data LifecycleKind : Type 0 where
  start link_opened ready poll fallback_poll listener_opened listener_notified : LifecycleKind
  listener_probed listener_recycled listener_closed task_claimed task_outcome : LifecycleKind
  task_unavailable task_committed task_released work_started work_finished : LifecycleKind
  maintenance_poll gc_finished fault stop stopped : LifecycleKind

pub data LifecycleLevel : Type 0 where
  debug info warning error : LifecycleLevel

pub data WorkOutcome : Type 0 where
  succeeded failed : WorkOutcome

pub data TaskReleaseReason : Type 0 where
  function_unavailable : TaskReleaseReason

-- ResultState | WorkOutcome
pub data Outcome : Type 0 where
  task : ResultState → Outcome
  work : WorkOutcome → Outcome

pub record LifecycleEvent : Type 0 where
  pub kind : LifecycleKind
  pub task_id : String
  pub version : ℕ
  pub outcome : Option Outcome
  pub release_reason : Option TaskReleaseReason
  pub count : Option ℕ
  pub detail : String

pub record LifecycleEffect : Type 0 where
  pub level : LifecycleLevel
  pub event : LifecycleKind
  pub phase : SkeletonPhase
  pub listener : ListenerPhase
  pub listener_generation : ℕ
  pub task_id : String
  pub version : ℕ
  pub outcome : Option Outcome
  pub release_reason : Option TaskReleaseReason
  pub count : Option ℕ
  pub detail : String

-- SkeletonCore and SkeletonView have the same five fields.
pub record SkeletonCore : Type 0 where
  pub phase : SkeletonPhase
  pub listener : ListenerPhase
  pub listener_generation : ℕ
  pub task_id : String
  pub version : ℕ
