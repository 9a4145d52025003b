-- ===== src/Skeleton/Tests.antt =====
-- Runs of reaper/skeleton.py, and the theorems at concrete inputs.
use reaper.Base.{String, ◌≡◌, refl, false, none, string_eq}
use reaper.Skeleton.Types.{
  SkeletonPhase, ListenerPhase, LifecycleKind, LifecycleEvent, SkeletonCore,
}
use reaper.Skeleton.Core.{apply, switch, finish, init, assert_invariants, raised, Error}
use reaper.Skeleton.Legal.{IsValid, is_reported, legal, apply-legal}

abbrev event : LifecycleKind → String → LifecycleEvent
event k id = record {
  kind = k;
  task_id = id;
  version = 1;
  outcome = none;
  release_reason = none;
  count = none;
  detail = "";
}

abbrev running : SkeletonCore
running = record init {
  phase = SkeletonPhase.running;
  task_id = "t";
  listener = ListenerPhase.listening;
}

running-IsValid : IsValid running
running-IsValid = record { owns = refl; deaf = λ p. cc }

-- READY while a task runs breaks an assertion.
ready_while_running :
    apply running (event LifecycleKind.ready "")
    ≡ raised Error.assertion (record running { phase = SkeletonPhase.idle })
unfolding apply switch finish assert_invariants
ready_while_running = refl

apply-legal_example :
    is_reported (apply running (event LifecycleKind.ready ""))
    ≡ legal LifecycleKind.ready SkeletonPhase.running false
apply-legal_example = apply-legal running (event LifecycleKind.ready "") running-IsValid
