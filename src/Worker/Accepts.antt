-- ===== src/Worker/Accepts.antt =====
-- Every turn of poll_tasks in reaper/worker.py keeps the lifecycle core in step.
use reaper.Base.{
  ℕ, suc, String, ◌≡◌, refl, ◌∙◌, Bool, true, false, Option, none, some, List, [], ◌∷◌, ◌++◌,
  if_elim, ◌==◌, string_eq, All,
}
use reaper.Skeleton.Types.{
  SkeletonPhase, ListenerPhase, LifecycleKind, LifecycleEvent, ResultState, SkeletonCore,
}
use reaper.Skeleton.Core.{apply, switch, finish, assert_invariants}
use reaper.Skeleton.Driver.{
  event, drive, lifecycle, core, drive_step, drive-nil, drive-append, Accepted, Accepted-nil,
  Accepted-step, Accepted-append,
}
use reaper.Worker.Tasks.{Claimed, Ran, returned, raised, run_claimed_task}
use reaper.Listener.Core.{ListenerActivity, ListenerWake}
use reaper.Worker.Poll.{
  Claim, Turn, Excluded, report_listener_activity, leave_claim, armed, wake_kind, await_work,
  after_poll, poll_turn, close_listener, next_turn, poll_turns, poll_store, poll_tasks,
}
use reaper.Worker.Reports.{
  IsNamedClaim, IsNamedTurn, idle, held, Closable, Turned, Runs, Closable-idle, Closable-settling,
  Runs-run_claimed_task, lifecycle-report_end,
}

-- A report that an idle core takes goes in front of a turn's.
Turned-front :
    (c d : SkeletonCore) (front : List LifecycleEvent) (s : List LifecycleEvent × Ran Excluded)
    → drive c front ≡ some d
    → Turned d s
    → Turned c (front ++ s.0, s.1)
Turned-front c d front (events, raised) h (last, k, close) =
    (last, drive-append c d front events h ∙ k, close)
Turned-front c d front (events, returned more) h (g, k) = (g, drive-append c d front events h ∙ k)

Turned-leave_claim :
    (g : ℕ) (t : Claimed) (closes : Bool) (excluded : Excluded)
    (s : List LifecycleEvent × Ran (Option ResultState))
    → (t.task_id == "") ≡ false
    → Runs g t s
    → Turned (idle g) (leave_claim t closes excluded s)
unfolding leave_claim
Turned-leave_claim g t closes excluded (events, raised) named h = h
Turned-leave_claim g t closes excluded (events, returned outcome) named h =
    if_elim (Turned (idle g)) closes _ _
      (λ _. (
        g,
        drive-append (idle g) (held SkeletonPhase.settling g t) events _ h
            ∙ drive_step _ _ _ _ (lifecycle-report_end g t named outcome)
            ∙ drive-nil _,
      ))
      (λ _. (held SkeletonPhase.settling g t, h, Closable-settling g t named))

drive-activity :
    (g : ℕ) (a : ListenerActivity)
    → (g' : ℕ) × (drive (idle g) (report_listener_activity a) ≡ some (idle g'))
unfolding report_listener_activity drive lifecycle apply switch finish assert_invariants
drive-activity g ListenerActivity.probed = (g, refl)
drive-activity g ListenerActivity.recycled = (suc g, refl)
drive-activity g ListenerActivity.idle = (g, refl)

lifecycle-wake :
    (g : ℕ) (w : ListenerWake) → lifecycle (idle g) (event (wake_kind w)) ≡ some (idle g)
unfolding lifecycle apply switch finish assert_invariants
lifecycle-wake g ListenerWake.notified = refl
lifecycle-wake g ListenerWake.fallback = refl

Turned-await_work :
    (g : ℕ) (w : Option (ListenerWake × ListenerActivity)) (excluded : Excluded)
    → Turned (idle g) (await_work w excluded)
unfolding await_work
Turned-await_work g none excluded = (idle g, drive-nil (idle g), Closable-idle g)
Turned-await_work g (some (wake, activity)) excluded =
    let (g', h) = drive-activity g activity in (g', drive_step _ _ _ _ (lifecycle-wake g wake) ∙ h)

Turned-after_poll :
    (g : ℕ) (c : Claim) (w : Option (ListenerWake × ListenerActivity)) (excluded : Excluded)
    → IsNamedClaim c
    → Turned (idle g) (after_poll c w excluded)
unfolding after_poll
Turned-after_poll g Claim.claim_raises w excluded named =
    (idle g, drive-nil (idle g), Closable-idle g)
Turned-after_poll g Claim.nothing w excluded named = Turned-await_work g w excluded
Turned-after_poll g (Claim.took t closes) w excluded named =
    Turned-leave_claim g t closes excluded (run_claimed_task t) named
      (Runs-run_claimed_task g t named)

drive-poll : (g : ℕ) → drive (idle g) (event LifecycleKind.poll ∷ []) ≡ some (idle g)
unfolding drive lifecycle apply switch finish assert_invariants
drive-poll g = refl

Turned-armed :
    (g : ℕ) (a : Option ListenerActivity) (s : List LifecycleEvent × Ran Excluded)
    → ((h : ℕ) → Turned (idle h) s)
    → Turned (idle g) (armed a s)
unfolding armed
Turned-armed g none s h = (idle g, drive-nil (idle g), Closable-idle g)
Turned-armed g (some a) s h =
    let (g', k) = drive-activity g a in
    Turned-front (idle g) (idle g') (report_listener_activity a)
      (event LifecycleKind.poll ∷ s.0, s.1) k
      (Turned-front (idle g') (idle g') (event LifecycleKind.poll ∷ []) s (drive-poll g') (h g'))

Turned-poll_turn :
    (g : ℕ) (turn : Turn) (excluded : Excluded)
    → IsNamedTurn turn
    → Turned (idle g) (poll_turn turn excluded)
unfolding poll_turn
Turned-poll_turn g turn excluded named =
    Turned-armed g turn.arm _ (λ h. Turned-after_poll h turn.claim turn.wait excluded named)

Accepted-close :
    (c : SkeletonCore) (closes : Bool) → Closable c → Accepted c (close_listener closes)
Accepted-close c true (d, h) = Accepted-step c d _ _ h (Accepted-nil d)
Accepted-close c false h = Accepted-nil c

Accepted-next_turn :
    (g : ℕ) (closes : Bool) (rest : Excluded → List LifecycleEvent)
    (s : List LifecycleEvent × Ran Excluded)
    → Turned (idle g) s
    → ((h : ℕ) (more : Excluded) → Accepted (idle h) (rest more))
    → Accepted (idle g) (next_turn closes rest s)
unfolding next_turn
Accepted-next_turn g closes rest (events, raised) (d, h, close) ih =
    Accepted-append (idle g) d events _ h (Accepted-close d closes close)
Accepted-next_turn g closes rest (events, returned more) (g', h) ih =
    Accepted-append (idle g) (idle g') events _ h (ih g' more)

Accepted-poll_turns :
    (g : ℕ) (closes : Bool) (turns : List Turn) (excluded : Excluded)
    → All IsNamedTurn turns
    → Accepted (idle g) (poll_turns closes turns excluded)
unfolding poll_turns
Accepted-poll_turns g closes [] excluded named = Accepted-nil (idle g)
Accepted-poll_turns g closes (turn ∷ turns) excluded named =
    Accepted-next_turn g closes _ (poll_turn turn excluded)
      (Turned-poll_turn g turn excluded named.0)
      (λ h more. Accepted-poll_turns h closes turns more named.1)

abbrev connecting : ℕ → SkeletonCore
connecting g = core SkeletonPhase.connecting ListenerPhase.closed g

drive-opening :
    (g : ℕ)
    → drive (connecting g) (event LifecycleKind.listener_opened ∷ event LifecycleKind.ready ∷ [])
      ≡ some (idle (suc g))
unfolding drive lifecycle apply switch finish assert_invariants
drive-opening g = refl

lifecycle-link :
    (g : ℕ) → lifecycle (connecting g) (event LifecycleKind.link_opened) ≡ some (connecting g)
unfolding lifecycle apply switch finish assert_invariants
lifecycle-link g = refl

Accepted-poll_store :
    (g : ℕ) (listens closes : Bool) (turns : List Turn)
    → All IsNamedTurn turns
    → Accepted (connecting g) (poll_store listens closes turns)
unfolding poll_store
Accepted-poll_store g listens closes turns named = Accepted-step _ _ _ _ (lifecycle-link g) (
    if_elim (Accepted (connecting g)) listens _ _
      (λ _.
        Accepted-append (connecting g) (idle (suc g))
          (event LifecycleKind.listener_opened ∷ event LifecycleKind.ready ∷ []) _ (drive-opening g)
          (Accepted-poll_turns (suc g) closes turns [] named))
      (λ _. Accepted-nil (connecting g)))

-- Every report of a task service that a connecting child starts is accepted: whatever the listener, the
-- claims, the tasks and the settlements give, and wherever they raise.
pub poll_tasks-Accepted :
    (g : ℕ) (topic : String) (opens listens closes : Bool) (turns : List Turn)
    → All IsNamedTurn turns
    → Accepted
        (core SkeletonPhase.connecting ListenerPhase.closed g)
        (poll_tasks topic opens listens closes turns)
unfolding poll_tasks
poll_tasks-Accepted g topic opens listens closes turns named =
    if_elim (Accepted (connecting g)) (topic == "") _ _ (λ _. Accepted-nil (connecting g))
      (λ _.
        if_elim (Accepted (connecting g)) opens _ _
          (λ _. Accepted-poll_store g listens closes turns named)
          (λ _. Accepted-nil (connecting g)))
