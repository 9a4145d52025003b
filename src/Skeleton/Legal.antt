-- ===== src/Skeleton/Legal.antt =====
-- Which events a core of reaper/skeleton.py takes, and where they lead.
use reaper.Base.{
  ℕ, ◌≡◌, refl, ◌∙◌, ◌+◌, Bool, true, false, not, ◌&&◌, ◌==◌, string_eq, nat_eq, arith,
}
use reaper.Skeleton.Types.{
  SkeletonPhase, ListenerPhase, LifecycleKind, LifecycleEvent, SkeletonCore,
}
use reaper.Skeleton.Core.{
  Switched, moved, failed, Applied, reported, raised, is_idle, is_running, is_settling, is_dead,
  has_task, apply, switch, finish, assert_invariants,
}

-- What the assertions ask for: a task is held exactly in the phases that own one, and a dead core
-- does not listen.
abbrev pub owner : SkeletonPhase → Bool
owner SkeletonPhase.running = true
owner SkeletonPhase.settling = true
owner p = false

pub record IsValid (c : SkeletonCore) : Type 0 where
  pub owns : has_task c ≡ owner c.phase
  pub deaf : c.phase ≡ SkeletonPhase.dead → c.listener ≡ ListenerPhase.closed

-- The table of legal events: what a core in a phase may be told.
abbrev pub legal : LifecycleKind → SkeletonPhase → Bool → Bool
legal LifecycleKind.ready p named = not (owner p)
legal LifecycleKind.listener_opened p named = not (is_dead p)
legal LifecycleKind.listener_recycled p named = not (is_dead p)
legal LifecycleKind.task_claimed p named = is_idle p && named
legal LifecycleKind.work_started p named = is_idle p && named
legal LifecycleKind.task_outcome p named = is_running p
legal LifecycleKind.task_unavailable p named = is_running p
legal LifecycleKind.work_finished p named = is_running p
legal LifecycleKind.task_committed p named = is_settling p
legal LifecycleKind.task_released p named = is_settling p
legal k p named = true

abbrev pub is_reported : Applied → Bool
is_reported (reported c e) = true
is_reported (raised e c) = false

abbrev pub left : Applied → SkeletonCore
left (reported c e) = c
left (raised e c) = c

assert_invariants-IsValid : (c : SkeletonCore) → assert_invariants c ≡ true → IsValid c
unfolding assert_invariants
assert_invariants-IsValid c h = ground arith

-- The outcome of a switched core.
abbrev accepts : Switched → Bool
accepts (failed e c) = false
accepts (moved c) = assert_invariants c

accepts-switch :
    (k : LifecycleKind) (c : SkeletonCore) (e : LifecycleEvent)
    → IsValid c
    → accepts (switch k c e) ≡ legal k c.phase (not (e.task_id == ""))
unfolding switch assert_invariants
accepts-switch LifecycleKind.start c e v = ground arith
accepts-switch k c e v = ground arith

reported-accepts : (s : Switched) (e : LifecycleEvent) → is_reported (finish s e) ≡ accepts s
unfolding finish
reported-accepts (failed x c) e = refl
reported-accepts (moved c) e = ground arith

-- A valid core reports an event exactly when the table allows it in the core's phase; any other
-- event raises.
pub apply-legal :
    (c : SkeletonCore) (e : LifecycleEvent)
    → IsValid c
    → is_reported (apply c e) ≡ legal e.kind c.phase (not (e.task_id == ""))
unfolding apply
apply-legal c e v = reported-accepts (switch e.kind c e) e ∙ accepts-switch e.kind c e v

-- The generation of the listener counts the times that it was opened or recycled.
abbrev pub opens : LifecycleKind → ℕ
opens LifecycleKind.listener_opened = 1
opens LifecycleKind.listener_recycled = 1
opens k = 0

switch-generation :
    (k : LifecycleKind) (c : SkeletonCore) (e : LifecycleEvent)
    → (left (finish (switch k c e) e)).listener_generation ≡ c.listener_generation + opens k
unfolding switch finish
switch-generation LifecycleKind.start c e = ground arith
switch-generation k c e = ground arith

-- The listener's generation grows by one for each opening and recycling and by nothing else, whether
-- the event is reported or raises.
pub apply-generation :
    (c : SkeletonCore) (e : LifecycleEvent)
    → (left (apply c e)).listener_generation ≡ c.listener_generation + opens e.kind
unfolding apply
apply-generation c e = switch-generation e.kind c e
