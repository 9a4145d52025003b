-- ===== src/Store/Keeps/Running.antt =====
-- Transactions keep the store consistent.
use reaper.Base.{
  ℕ, ◌≡◌, refl, String, Bool, true, ◌&&◌, Option, none, some, List, [], ◌∷◌, All, if_elim,
  string_eq, arith, ◌∙◌, Option-cases, inl, inr,
}
use reaper.Store.Types.{TaskRow, Store}
use reaper.Store.Rows.{keep, known, pending, has_task}
use reaper.Store.Order.{All-sort_by, All-head}
use reaper.Store.Settle.{Outcome, resolved, rejected, find_task}
use reaper.Store.Suspend.{Suspended, suspended, refused, suspend_task}
use reaper.Store.Submit.{
  Request, Timer, submit_one, submit_calls, insert_timer, submit_timer, call_row, timer_row,
}
use reaper.Store.Claim.{FunctionVersion, claimable, claims_before, claim}
use reaper.Store.Tasks.{
  TaskResult, RetryResult, settle_task, complete_task, reject_task, retry_task,
}
use reaper.Store.Events.{
  Work, submits, times, Ending, completes, rejects, retries, suspends, Event, works, executes,
  processes, deletes, work, work_all, committed, committed_wait, end, execute, step, run,
}
use reaper.Store.Invariant.{blockers, IsCounted, IsConsistent}
use reaper.Store.Maintain.{due}
use reaper.Store.Keeps.Settling.{IsApart, settle-IsConsistent}
use reaper.Store.Keeps.Submitting.{
  blockers-new, submit_one-IsConsistent, submit_calls-IsConsistent, insert_timer-IsConsistent,
}
use reaper.Store.Keeps.Statements.{
  IsKept, suspend_task-IsKept, retry-IsConsistent, process_due-IsConsistent,
}
use reaper.Store.Keeps.Graphs.{All-keep-kept}
use reaper.Store.Keeps.Deleting.{delete_expired-IsConsistent}

abbrev blockers_in : Store → String → ℕ
blockers_in s a = blockers s.promises s.waits a

-- Submissions add no wait.
blockers-submit_one :
    (r : Request) (s : Store) (a : String)
    → IsConsistent s
    → blockers_in (submit_one r s) a ≡ blockers_in s a
unfolding submit_one
blockers-submit_one r s a c =
    if_elim (λ t. blockers_in t a ≡ blockers_in s a) (known s.promises r.id) _ _ (λ _. refl)
      (λ new. blockers-new s.promises (call_row r) new s.waits a c.linked)

blockers-submit_calls :
    (rs : List Request) (s : Store) (a : String)
    → IsConsistent s
    → blockers_in (submit_calls rs s) a ≡ blockers_in s a
unfolding submit_calls
blockers-submit_calls [] s a c = refl
blockers-submit_calls (r ∷ rs) s a c =
    blockers-submit_calls rs (submit_one r s) a (submit_one-IsConsistent r s c)
    ∙ blockers-submit_one r s a c

blockers-insert_timer :
    (t : Timer) (s : Store) (a : String)
    → IsConsistent s
    → blockers_in (insert_timer t s) a ≡ blockers_in s a
unfolding insert_timer
blockers-insert_timer t s a c =
    if_elim (λ u. blockers_in u a ≡ blockers_in s a) (known s.promises t.id) _ _ (λ _. refl)
      (λ new. blockers-new s.promises (timer_row t) new s.waits a c.linked)

work-IsConsistent : (w : Work) (s : Store) → IsConsistent s → IsConsistent (work w s)
unfolding work submit_timer
work-IsConsistent (submits rs) s c = submit_calls-IsConsistent rs s c
work-IsConsistent (times t) s c = insert_timer-IsConsistent t s c

blockers-work :
    (w : Work) (s : Store) (a : String)
    → IsConsistent s
    → blockers_in (work w s) a ≡ blockers_in s a
unfolding work submit_timer
blockers-work (submits rs) s a c = blockers-submit_calls rs s a c
blockers-work (times t) s a c = blockers-insert_timer t s a c

pub work_all-IsConsistent :
    (ws : List Work) (s : Store) → IsConsistent s → IsConsistent (work_all ws s)
unfolding work_all
work_all-IsConsistent [] s c = c
work_all-IsConsistent (w ∷ ws) s c = work_all-IsConsistent ws (work w s) (work-IsConsistent w s c)

blockers-work_all :
    (ws : List Work) (s : Store) (a : String)
    → IsConsistent s
    → blockers_in (work_all ws s) a ≡ blockers_in s a
unfolding work_all
blockers-work_all [] s a c = refl
blockers-work_all (w ∷ ws) s a c =
    blockers-work_all ws (work w s) a (work-IsConsistent w s c) ∙ blockers-work w s a c

settle_task-IsConsistent :
    (now : ℕ) (id : String) (o : Outcome) (s s' : Store)
    → blockers_in s' id ≡ 0
    → IsConsistent s
    → IsConsistent s'
    → IsConsistent (committed s (settle_task now id o s'))
unfolding settle_task
settle_task-IsConsistent now id o s s' free c c' =
    if_elim {A = TaskResult {0} Unit} (λ r. IsConsistent (committed s r))
      (has_task s'.tasks id && pending s'.promises id) _ _
      (λ _. settle-IsConsistent now id o s' free c') (λ _. c)

retry_task-IsConsistent :
    (now : ℕ) (id error : String) (delay_ms : ℕ) (s s' : Store)
    → blockers_in s' id ≡ 0
    → IsConsistent s
    → IsConsistent s'
    → IsConsistent (committed s (retry_task now id error delay_ms s'))
unfolding retry_task
retry_task-IsConsistent now id error delay_ms s s' free c c' =
    elim (Option-cases (find_task s'.tasks id)) [
      | inl e ↦ rw (retry_task, e) c
      | inr (t, e) ↦
          rw (retry_task, e)
            (if_elim {A = TaskResult {0} RetryResult} (λ r. IsConsistent (committed s r))
              (pending s'.promises id) _ _
              (λ _. retry-IsConsistent now id error delay_ms s' free c') (λ _. c))
    ]

committed_wait-IsConsistent :
    (s : Store) (r : Suspended) → IsConsistent s → IsKept r → IsConsistent (committed_wait s r)
committed_wait-IsConsistent s (suspended s') c k = k
committed_wait-IsConsistent s (refused fault) c k = c

end-IsConsistent :
    (now : ℕ) (id : String) (ending : Ending) (s s' : Store)
    → blockers_in s' id ≡ 0
    → IsConsistent s
    → IsConsistent s'
    → IsConsistent (end now id ending s s')
unfolding end complete_task reject_task
end-IsConsistent now id (completes result) s s' free c c' =
    settle_task-IsConsistent now id (resolved result) s s' free c c'
end-IsConsistent now id (rejects error) s s' free c c' =
    settle_task-IsConsistent now id (rejected (some error)) s s' free c c'
end-IsConsistent now id (retries error delay_ms) s s' free c c' =
    retry_task-IsConsistent now id error delay_ms s s' free c c'
end-IsConsistent now id (suspends awaited) s s' free c c' =
    committed_wait-IsConsistent s (suspend_task now id awaited s') c
      (suspend_task-IsKept now id awaited s' free c')

module _ (precedes : String → String → Bool) where
  -- A claim takes a task of the store, one that is claimable.
  pub All-claim {ℓ} :
      (P : TaskRow → Type ℓ) (now : ℕ) (topic : String) (excluded : List FunctionVersion)
      (locked : String → Bool) (s : Store) (t : TaskRow)
      → All P s.tasks
      → claim precedes now topic excluded locked s ≡ some t
      → P t × (claimable now topic excluded locked s.promises t ≡ true)
  unfolding claim
  All-claim P now topic excluded locked s t h e =
      All-head (λ u. P u × (claimable now topic excluded locked s.promises u ≡ true)) _ t
        (All-sort_by (claims_before precedes) _
          (keep (claimable now topic excluded locked s.promises) s.tasks)
          (All-keep-kept P (claimable now topic excluded locked s.promises) s.tasks h))
        e

  pub claim-free :
      (now : ℕ) (topic : String) (excluded : List FunctionVersion) (locked : String → Bool)
      (s : Store) (t : TaskRow)
      → IsConsistent s
      → claim precedes now topic excluded locked s ≡ some t
      → blockers_in s t.promise_id ≡ 0
  unfolding claimable
  claim-free now topic excluded locked s t c e =
      let found =
        All-claim (IsCounted s.promises s.waits) now topic excluded locked s t c.counted e in
      ground (arith, found)

  execute-IsConsistent :
      (o : Option TaskRow) (ws : List Work) (now : ℕ) (ending : Ending) (s : Store)
      → ((t : TaskRow) → o ≡ some t → blockers_in s t.promise_id ≡ 0)
      → IsConsistent s
      → IsConsistent (execute o ws now ending s)
  execute-IsConsistent none ws now ending s free c = c
  execute-IsConsistent (some t) ws now ending s free c =
      end-IsConsistent now t.promise_id ending s (work_all ws s)
        (blockers-work_all ws s t.promise_id c ∙ free t refl) c (work_all-IsConsistent ws s c)

  -- Due processing that ends no task that it also wakes.
  abbrev pub IsApartIn : Event → Store → Type 0
  IsApartIn (processes locked task_locked now limit) s =
      IsApart (due precedes locked task_locked now limit s) s
  IsApartIn e s = Unit

  -- Every due processing of a run is one.
  abbrev pub AllApart : List Event → Store → Type 0
  AllApart [] s = Unit
  AllApart (e ∷ es) s = IsApartIn e s × AllApart es (step precedes e s)

  pub step-IsConsistent :
      (e : Event) (s : Store) → IsApartIn e s → IsConsistent s → IsConsistent (step precedes e s)
  unfolding step
  step-IsConsistent (works w) s apart c = work-IsConsistent w s c
  step-IsConsistent (executes r ws now ending) s apart c =
      execute-IsConsistent (claim precedes r.now r.topic r.excluded r.locked s) ws now ending s
        (λ t. claim-free r.now r.topic r.excluded r.locked s t c) c
  step-IsConsistent (processes locked task_locked now limit) s apart c =
      process_due-IsConsistent precedes locked task_locked now limit s apart c
  step-IsConsistent (deletes locked before limit) s apart c =
      delete_expired-IsConsistent precedes locked before limit s c

  -- Submissions, claims with all that they do, due processing and deletions, one transaction after
  -- another in any order and with any locks, leave a consistent store consistent, when no due
  -- processing times out a task that waits for a promise which it settles too: a task counts exactly
  -- the pending promises that it awaits, there is a task for a promise exactly when it is a pending
  -- call, ids are unique, no id is both a call's and a timer's, and waits stay within their graph.
  pub run-IsConsistent :
      (es : List Event) (s : Store)
      → AllApart es s
      → IsConsistent s
      → IsConsistent (run precedes es s)
  unfolding run
  run-IsConsistent [] s apart c = c
  run-IsConsistent (e ∷ es) s apart c =
      run-IsConsistent es (step precedes e s) apart.1 (step-IsConsistent e s apart.0 c)
