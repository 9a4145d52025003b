-- ===== src/Skeleton/Core.antt =====
-- SkeletonCore of reaper/skeleton.py. A method that raises gives the error and the state as it was
-- left, since what was assigned before a raise stays assigned.
use reaper.Base.{suc, Bool, true, false, not, ◌&&◌, ◌||◌, if◌then◌else◌, ◌==◌, string_eq, nat_eq}
use reaper.Skeleton.Types.{
  SkeletonPhase, ListenerPhase, LifecycleKind, LifecycleLevel, LifecycleEvent, LifecycleEffect,
  SkeletonCore,
}

pub data Error : Type 0 where
  invalid_transition missing_task_id assertion : Error

pub data Switched : Type 0 where
  moved : SkeletonCore → Switched
  failed : Error → SkeletonCore → Switched

pub data Applied : Type 0 where
  reported : SkeletonCore → LifecycleEffect → Applied
  raised : Error → SkeletonCore → Applied

abbrev pub init : SkeletonCore
init = record {
  phase = SkeletonPhase.starting;
  listener = ListenerPhase.closed;
  listener_generation = 0;
  task_id = "";
  version = 0;
}

abbrev pub is_idle : SkeletonPhase → Bool
is_idle SkeletonPhase.idle = true
is_idle p = false

abbrev pub is_running : SkeletonPhase → Bool
is_running SkeletonPhase.running = true
is_running p = false

abbrev pub is_settling : SkeletonPhase → Bool
is_settling SkeletonPhase.settling = true
is_settling p = false

abbrev pub is_dead : SkeletonPhase → Bool
is_dead SkeletonPhase.dead = true
is_dead p = false

abbrev pub is_closed : ListenerPhase → Bool
is_closed ListenerPhase.closed = true
is_closed ListenerPhase.listening = false

-- `bool(self.task_id)`
abbrev pub has_task : SkeletonCore → Bool
has_task c = not (c.task_id == "")

abbrev pub clear_task : SkeletonCore → SkeletonCore
clear_task c = record c { task_id = ""; version = 0 }

unfoldable pub set_task : SkeletonCore → LifecycleEvent → Switched
set_task c event =
    if event.task_id == ""
    then failed Error.missing_task_id c
    else moved (record c { task_id = event.task_id; version = event.version })

-- `self.require_phase(phase)`, then the rest of the case.
abbrev pub require_phase : Bool → SkeletonCore → Switched → Switched
require_phase in_phase c rest = if in_phase then rest else failed Error.invalid_transition c

abbrev pub enter : SkeletonPhase → SkeletonCore → SkeletonCore
enter phase c = record c { phase = phase }

abbrev pub listen : SkeletonCore → SkeletonCore
listen c = record c {
  listener = ListenerPhase.listening;
  listener_generation = suc c.listener_generation;
}

abbrev pub unlisten : SkeletonCore → SkeletonCore
unlisten c = record c { listener = ListenerPhase.closed }

-- `match event.kind` in `apply`.
unfoldable pub switch : LifecycleKind → SkeletonCore → LifecycleEvent → Switched
unfolding set_task
switch LifecycleKind.start c event = moved (clear_task (enter SkeletonPhase.connecting c))
switch LifecycleKind.ready c event = moved (enter SkeletonPhase.idle c)
switch LifecycleKind.listener_opened c event = moved (listen c)
switch LifecycleKind.listener_recycled c event = moved (listen c)
switch LifecycleKind.listener_closed c event = moved (unlisten c)
switch LifecycleKind.task_claimed c event =
    require_phase (is_idle c.phase) c (set_task (enter SkeletonPhase.running c) event)
switch LifecycleKind.task_outcome c event =
    require_phase (is_running c.phase) c (moved (enter SkeletonPhase.settling c))
switch LifecycleKind.task_unavailable c event =
    require_phase (is_running c.phase) c (moved (enter SkeletonPhase.settling c))
switch LifecycleKind.task_committed c event =
    require_phase (is_settling c.phase) c (moved (clear_task (enter SkeletonPhase.idle c)))
switch LifecycleKind.task_released c event =
    require_phase (is_settling c.phase) c (moved (clear_task (enter SkeletonPhase.idle c)))
switch LifecycleKind.work_started c event =
    require_phase (is_idle c.phase) c (set_task (enter SkeletonPhase.running c) event)
switch LifecycleKind.work_finished c event =
    require_phase (is_running c.phase) c (moved (clear_task (enter SkeletonPhase.idle c)))
switch LifecycleKind.fault c event = moved (clear_task (unlisten (enter SkeletonPhase.backoff c)))
switch LifecycleKind.stop c event = moved (clear_task (enter SkeletonPhase.stopping c))
switch LifecycleKind.stopped c event = moved (clear_task (unlisten (enter SkeletonPhase.dead c)))
switch kind c event = moved c

-- The versions and the generation are natural numbers, so their assertions hold by type.
unfoldable pub assert_invariants : SkeletonCore → Bool
assert_invariants c =
    (if has_task c then owns else not owns) && (not (is_dead c.phase) || is_closed c.listener)
  where
    owns : Bool
    owns = is_running c.phase || is_settling c.phase

unfoldable pub level_for : LifecycleKind → LifecycleLevel
level_for LifecycleKind.listener_recycled = LifecycleLevel.info
level_for LifecycleKind.task_committed = LifecycleLevel.info
level_for LifecycleKind.gc_finished = LifecycleLevel.info
level_for kind = LifecycleLevel.debug

-- `event.task_id or self.task_id`, `event.version or self.version`
unfoldable pub effect_of : SkeletonCore → LifecycleEvent → LifecycleEffect
unfolding level_for
effect_of c event = record {
  level = level_for event.kind;
  event = event.kind;
  phase = c.phase;
  listener = c.listener;
  listener_generation = c.listener_generation;
  task_id = if event.task_id == "" then c.task_id else event.task_id;
  version = if event.version == 0 then c.version else event.version;
  outcome = event.outcome;
  release_reason = event.release_reason;
  count = event.count;
  detail = event.detail;
}

-- What follows the match: the assertions and the report.
unfoldable pub finish : Switched → LifecycleEvent → Applied
finish (failed e c) event = raised e c
finish (moved c) event =
    if assert_invariants c then reported c (effect_of c event) else raised Error.assertion c

unfoldable pub apply : SkeletonCore → LifecycleEvent → Applied
apply c event = finish (switch event.kind c event) event
