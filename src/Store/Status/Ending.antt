-- ===== src/Store/Status/Ending.antt =====
-- What ends an execution closes its own promise at most.
use reaper.Base.{
  ℕ, suc, ◌≡◌, refl, String, false, not, ◌&&◌, Option, none, some, List, if_elim, ◌==◌, string_eq,
  Option-cases, inl, inr, ltb,
}
use reaper.Store.Types.{Store}
use reaper.Store.Rows.{pending, has_task, find_promise}
use reaper.Store.Settle.{
  Outcome, resolved, rejected, settlement, settle_all, settle, retry, find_task,
}
use reaper.Store.Suspend.{
  Suspended, suspended, refused, suspend_rows, suspend_task, graph_checked, missing_checked,
  graph_of, first_missing, all_in_graph, validate_awaits,
}
use reaper.Store.Tasks.{
  TaskResult, done, task_not_found, RetryResult, settle_task, complete_task, reject_task,
  retry_task,
}
use reaper.Store.Events.{
  Ending, completes, rejects, retries, suspends, committed, committed_wait, end,
}
use reaper.Store.Status.{Moves, stays_so, status, find_promise-settle, settle-other}

pub record Touches (id : String) (s s' : Store) : Type 0 where
  pub moves : (a : String) → Moves (status s a) (status s' a)
  pub other :
      (a : String) → (id == a) ≡ false → find_promise s'.promises a ≡ find_promise s.promises a

Touches-none : (id : String) (s : Store) → Touches id s s
Touches-none id s = record { moves = λ a. stays_so; other = λ a h. refl }

Touches-settle_all :
    (now : ℕ) (id : String) (o : Outcome) (s : Store)
    → Touches id s (settle_all (settlement now id o) s)
unfolding settle_all
Touches-settle_all now id o s = record {
  moves = λ a. find_promise-settle (settlement now id o) s.promises a;
  other = λ a h. settle-other now id o s.promises a h;
}

-- The transaction's own store, or the one before it.
abbrev Ends {ℓ} : {A : Type ℓ} → String → Store → TaskResult {ℓ} A → Type 0
Ends id s (done s' a) = Touches id s s'
Ends id s (task_not_found a) = Unit

Ends-settle_task :
    (now : ℕ) (id : String) (o : Outcome) (s : Store) → Ends {0} id s (settle_task now id o s)
unfolding settle_task settle
Ends-settle_task now id o s =
    if_elim {A = TaskResult {0} Unit} (Ends {0} id s) (has_task s.tasks id && pending s.promises id)
      _ _
      (λ _.
        if_elim (Touches id s) (has_task s.tasks id) _ _ (λ _. Touches-settle_all now id o s)
          (λ _. Touches-none id s))
      (λ _. tt)

Touches-retry :
    (now : ℕ) (id error : String) (delay_ms : ℕ) (s : Store)
    → Touches id s (retry now id error delay_ms s)
unfolding retry
Touches-retry now id error delay_ms s = elim (Option-cases (find_task s.tasks id)) [
  | inl e ↦ rw (retry, e) (Touches-none id s)
  | inr (t, e) ↦
      rw (retry, e)
        (if_elim (Touches id s) (not (pending s.promises id)) _ _ (λ _. Touches-none id s)
          (λ _.
            if_elim (Touches id s) (ltb (suc t.failures) t.max_failures) _ _
              (λ _. record { moves = λ a. stays_so; other = λ a h. refl })
              (λ _. Touches-settle_all now id (rejected (some error)) s)))
]

Ends-retry_task :
    (now : ℕ) (id error : String) (delay_ms : ℕ) (s : Store)
    → Ends {0} id s (retry_task now id error delay_ms s)
unfolding retry_task
Ends-retry_task now id error delay_ms s = elim (Option-cases (find_task s.tasks id)) [
  | inl e ↦ rw (retry_task, e) tt
  | inr (t, e) ↦
      rw (retry_task, e)
        (if_elim {A = TaskResult {0} RetryResult} (Ends {0} id s) (pending s.promises id) _ _
          (λ _. Touches-retry now id error delay_ms s) (λ _. tt))
]

abbrev Waits : String → Store → Suspended → Type 0
Waits id s (suspended s') = Touches id s s'
Waits id s (refused fault) = Unit

module _ (now : ℕ) (id : String) (ids : List String) (s : Store) where
  graph_checked-Waits : (o : Option String) → Waits id s (graph_checked now id o ids s)
  unfolding suspend_rows
  graph_checked-Waits none = tt
  graph_checked-Waits (some graph) =
      if_elim (Waits id s) (all_in_graph s.promises graph ids) _ _
        (λ _. record { moves = λ a. stays_so; other = λ a h. refl }) (λ _. tt)

  missing_checked-Waits : (o : Option String) → Waits id s (missing_checked now id o ids s)
  missing_checked-Waits (some a) = tt
  missing_checked-Waits none = graph_checked-Waits (graph_of s.promises id)

  Waits-suspend_task : Waits id s (suspend_task now id ids s)
  unfolding suspend_task
  Waits-suspend_task =
      if_elim (Waits id s) (not (validate_awaits id ids)) _ _ (λ _. tt)
        (λ _.
          if_elim (Waits id s) (not (has_task s.tasks id)) _ _ (λ _. tt)
            (λ _. missing_checked-Waits (first_missing s.promises ids)))

-- Rolled back, or one promise on from the store that the work made.
pub data Left (id : String) (s s' : Store) : Store → Type 0 where
  rolled_back : Left id s s' s
  kept : {s'' : Store} → Touches id s' s'' → Left id s s' s''

committed-Left {ℓ} :
    {A : Type ℓ} (id : String) (s s' : Store) (r : TaskResult {ℓ} A)
    → Ends {ℓ} id s' r
    → Left id s s' (committed s r)
committed-Left id s s' (done s'' a) h = kept h
committed-Left id s s' (task_not_found a) h = rolled_back

committed_wait-Left :
    (id : String) (s s' : Store) (r : Suspended) → Waits id s' r → Left id s s' (committed_wait s r)
committed_wait-Left id s s' (suspended s'') h = kept h
committed_wait-Left id s s' (refused fault) h = rolled_back

pub end-Left :
    (now : ℕ) (id : String) (ending : Ending) (s s' : Store) → Left id s s' (end now id ending s s')
unfolding end complete_task reject_task
end-Left now id (completes result) s s' =
    committed-Left {0} id s s' (settle_task now id (resolved result) s')
      (Ends-settle_task now id (resolved result) s')
end-Left now id (rejects error) s s' =
    committed-Left {0} id s s' (settle_task now id (rejected (some error)) s')
      (Ends-settle_task now id (rejected (some error)) s')
end-Left now id (retries error delay_ms) s s' =
    committed-Left {0} id s s' (retry_task now id error delay_ms s')
      (Ends-retry_task now id error delay_ms s')
end-Left now id (suspends awaited) s s' =
    committed_wait-Left id s s' (suspend_task now id awaited s')
      (Waits-suspend_task now id awaited s')
