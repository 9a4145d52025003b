-- ===== src/Worker/Poll.antt =====
-- poll_tasks and report_listener_activity of reaper/worker.py. A turn of the loop has what its awaits
-- give, or that they raise; a cancelled turn is one whose await raises.
use reaper.Base.{
  ℕ, String, Bool, true, false, Option, none, some, List, [], ◌∷◌, ◌++◌, if◌then◌else◌, ◌==◌,
  string_eq, nat_eq,
}
use reaper.Skeleton.Types.{LifecycleKind, LifecycleEvent, ResultState, TaskReleaseReason}
use reaper.Listener.Core.{ListenerActivity, ListenerWake}
use reaper.Skeleton.Driver.{event}
use reaper.Worker.Tasks.{Claimed, Ran, returned, raised, run_claimed_task, about_task}

unfoldable pub report_listener_activity : ListenerActivity → List LifecycleEvent
report_listener_activity ListenerActivity.probed = event LifecycleKind.listener_probed ∷ []
report_listener_activity ListenerActivity.recycled = event LifecycleKind.listener_recycled ∷ []
report_listener_activity ListenerActivity.idle = []

-- A claim raises, finds nothing, or takes a task; `closes` says whether leaving the claim succeeds.
pub data Claim : Type 0 where
  claim_raises nothing : Claim
  took : Claimed → Bool → Claim

pub record Turn : Type 0 where
  pub arm : Option ListenerActivity
  pub claim : Claim
  pub wait : Option (ListenerWake × ListenerActivity)

-- The functions, with their versions, that this child cannot run.
abbrev pub Excluded : Type 0
Excluded = List (String × ℕ)

-- `excluded.add`
abbrev pub exclude : Claimed → Excluded → Excluded
exclude t excluded = (t.function, t.version) ∷ excluded

-- The report once the claim has been left.
abbrev pub report_end : Claimed → Option ResultState → LifecycleEvent
report_end t none =
    about_task LifecycleKind.task_released t none (some TaskReleaseReason.function_unavailable)
report_end t (some state) = about_task LifecycleKind.task_committed t (some state) none

-- The end of the claim's block, and the report. A task is committed when its execution is finished,
-- which is when `run_claimed_task` gives a state.
unfoldable pub leave_claim :
    Claimed
    → Bool
    → Excluded
    → List LifecycleEvent × Ran (Option ResultState)
    → List LifecycleEvent × Ran Excluded
leave_claim t closes excluded (events, raised) = (events, raised)
leave_claim t closes excluded (events, returned outcome) =
    if closes
    then (
      events ++ report_end t outcome ∷ [],
      returned (elim outcome [ none ↦ exclude t excluded | some s ↦ excluded ]),
    )
    else (events, raised)

abbrev pub wake_kind : ListenerWake → LifecycleKind
wake_kind ListenerWake.notified = LifecycleKind.listener_notified
wake_kind ListenerWake.fallback = LifecycleKind.fallback_poll

unfoldable pub await_work :
    Option (ListenerWake × ListenerActivity) → Excluded → List LifecycleEvent × Ran Excluded
unfolding report_listener_activity
await_work none excluded = ([], raised)
await_work (some (wake, activity)) excluded =
    (event (wake_kind wake) ∷ report_listener_activity activity, returned excluded)

-- The events of a turn after POLL, and the exclusions for the next turn.
unfoldable pub after_poll :
    Claim → Option (ListenerWake × ListenerActivity) → Excluded → List LifecycleEvent × Ran Excluded
unfolding run_claimed_task leave_claim await_work
after_poll Claim.claim_raises wait excluded = ([], raised)
after_poll Claim.nothing wait excluded = await_work wait excluded
after_poll (Claim.took t closes) wait excluded = leave_claim t closes excluded (run_claimed_task t)

-- `listener.arm()`, POLL, and what follows.
unfoldable pub armed :
    Option ListenerActivity
    → List LifecycleEvent × Ran Excluded
    → List LifecycleEvent × Ran Excluded
unfolding report_listener_activity
armed none s = ([], raised)
armed (some activity) s = (report_listener_activity activity ++ event LifecycleKind.poll ∷ s.0, s.1)

unfoldable pub poll_turn : Turn → Excluded → List LifecycleEvent × Ran Excluded
unfolding armed after_poll
poll_turn turn excluded = armed turn.arm (after_poll turn.claim turn.wait excluded)

-- `listener.close()` of the `finally`, which may raise itself.
abbrev pub close_listener : Bool → List LifecycleEvent
close_listener true = event LifecycleKind.listener_closed ∷ []
close_listener false = []

-- What a turn leads to: the `finally`, or the next turn.
unfoldable pub next_turn :
    Bool
    → (Excluded → List LifecycleEvent)
    → List LifecycleEvent × Ran Excluded
    → List LifecycleEvent
next_turn closes rest (events, raised) = events ++ close_listener closes
next_turn closes rest (events, returned excluded) = events ++ rest excluded

-- `while True`, as far as the turns are known.
unfoldable pub poll_turns : Bool → List Turn → Excluded → List LifecycleEvent
unfolding poll_turn next_turn
poll_turns closes [] excluded = []
poll_turns closes (turn ∷ turns) excluded =
    next_turn closes (λ more. poll_turns closes turns more) (poll_turn turn excluded)

-- The events once the store is open: `listens` says whether the listener connects.
unfoldable pub poll_store : Bool → Bool → List Turn → List LifecycleEvent
unfolding poll_turns
poll_store listens closes turns =
    event LifecycleKind.link_opened
    ∷ (if listens
        then event LifecycleKind.listener_opened
          ∷ event LifecycleKind.ready
          ∷ poll_turns closes turns []
        else [])

-- An empty topic raises, as does a store that cannot be opened.
unfoldable pub poll_tasks : String → Bool → Bool → Bool → List Turn → List LifecycleEvent
unfolding poll_store
poll_tasks topic opens listens closes turns =
    if topic == "" then [] else if opens then poll_store listens closes turns else []
