-- ===== src/Store/Status/Refines.antt =====
-- Every transaction moves every promise as the abstract store allows.
use reaper.Base.{
  ℕ, ◌≡◌, refl, sym, ap, String, Bool, true, false, Option, none, some, List, [], ◌∷◌, All, All-map,
  ◌==◌, string_eq, arith, ◌∙◌, Bool-cases, inl, inr, subst,
}
use reaper.Store.Types.{PromiseRow, TaskRow, Store, is_pending}
use reaper.Store.Rows.{any, keep, known, pending_call, has_task, find_promise}
use reaper.Store.Settle.{settle_all}
use reaper.Store.Claim.{claim}
use reaper.Store.Maintain.{due, process_due, delete_graphs, doomed, delete_expired}
use reaper.Store.Events.{
  Work, Ending, Event, works, executes, processes, deletes, work_all, end, execute, step,
}
use reaper.Store.Invariant.{IsUnique, IsConsistent}
use reaper.Store.Keeps.Graphs.{All-any, known-keep, IsQuiet, stays}
use reaper.Store.Keeps.Deleting.{doomed-IsQuiet}
use reaper.Store.Keeps.Running.{All-claim}
use reaper.Store.Status.{
  absent, Moves, stays_so, leaves, status, status_of, row_status, find_promise-settle,
  settled-closed,
}
use reaper.Store.Status.Working.{Grows, known-find, Grows-work, Grows-work_all, Grows-Moves}
use reaper.Store.Status.Ending.{Left, rolled_back, kept, end-Left}

pending_call-known :
    (ps : List PromiseRow) (a : String) → pending_call ps a ≡ true → known ps a ≡ true
unfolding pending_call known
pending_call-known [] a h = h
pending_call-known (p ∷ ps) a h = ground (arith, pending_call-known ps a)

-- Work and what ends it move a promise once: the promise of the task is known before, and the
-- others are left by the end.
Left-Moves :
    (id : String) (s s' s'' : Store) (a : String)
    → Grows s s'
    → known s.promises id ≡ true
    → Left id s s' s''
    → Moves (status s a) (status s'' a)
Left-Moves id s s' s'' a g k rolled_back = stays_so
Left-Moves id s s' s'' a g k (kept t) = elim (Bool-cases (id == a)) [
  | inl same ↦
      let here : known s.promises a ≡ true = ground (arith, k, same, string_eq.agrees id a) in
      subst (λ o. Moves (status_of o) (status s'' a)) (g.old a here) (t.moves a)
  | inr far ↦
      subst (λ o. Moves (status s a) (status_of o)) (sym (t.other a far)) (Grows-Moves s s' a g)
]

gone_settled :
    (roots : List String) (p : PromiseRow)
    → stays roots p ≡ false
    → IsQuiet roots p
    → is_pending p.state ≡ false
unfolding stays
gone_settled roots p e q = ground (arith, q)

-- A row stays, or it was closed and no other has its id.
keep-Moves :
    (roots : List String) (ps : List PromiseRow) (a : String)
    → IsUnique ps
    → All (IsQuiet roots) ps
    → Moves (status_of (find_promise ps a)) (status_of (find_promise (keep (stays roots) ps) a))
unfolding find_promise
keep-Moves roots [] a u q = stays_so
keep-Moves roots (p ∷ ps) a u q = elim (Bool-cases (stays roots p)) [
  | inl e ↦ rw e (elim (Bool-cases (p.id == a)) [
    | inl same ↦ rw same stays_so
    | inr other ↦ rw other (keep-Moves roots ps a u.1 q.1)
  ])
  | inr e ↦ rw e (elim (Bool-cases (p.id == a)) [
    | inl same ↦ rw same (subst (Moves (row_status p)) (sym (removed same)) (goes_away e))
    | inr other ↦ rw other (keep-Moves roots ps a u.1 q.1)
  ])
]
  where
    removed : p.id == a ≡ true → status_of (find_promise (keep (stays roots) ps) a) ≡ absent
    removed same = ap status_of (
        known-find (keep (stays roots) ps) a
          (known-keep roots ps a (ground (arith, u.0, same, string_eq.agrees p.id a))))

    goes_away : stays roots p ≡ false → Moves (row_status p) absent
    goes_away e =
        subst (λ x. Moves x absent) (sym (settled-closed p (gone_settled roots p e q.0))) leaves

module _ (precedes : String → String → Bool) where
  execute-Moves :
      (o : Option TaskRow) (ws : List Work) (now : ℕ) (ending : Ending) (s : Store) (a : String)
      → ((t : TaskRow) → o ≡ some t → known s.promises t.promise_id ≡ true)
      → Moves (status s a) (status (execute o ws now ending s) a)
  execute-Moves none ws now ending s a k = stays_so
  execute-Moves (some t) ws now ending s a k =
      Left-Moves t.promise_id s (work_all ws s) (end now t.promise_id ending s (work_all ws s)) a
        (Grows-work_all ws s) (k t refl) (end-Left now t.promise_id ending s (work_all ws s))

  -- The task of a store has its promise there.
  tasks-known :
      (s : Store) → IsConsistent s → All (λ t. known s.promises t.promise_id ≡ true) s.tasks
  unfolding has_task
  tasks-known s c =
      All-map (λ t. (test : TaskRow → Bool) → test t ≡ true → any test s.tasks ≡ true)
        (λ t. known s.promises t.promise_id ≡ true) s.tasks
        (λ t f. pending_call-known s.promises t.promise_id (
          sym (c.owned t.promise_id)
          ∙ f (λ v. v.promise_id == t.promise_id)
              (ground (arith, string_eq.agrees t.promise_id t.promise_id))))
        (All-any s.tasks)

  -- A transaction on a consistent store moves each promise by one step of the abstract store at most:
  -- a promise that was absent may be open, one that was open may be closed, and one that was closed
  -- keeps its state, result, error and time, or it is deleted.
  pub step-Moves :
      (e : Event) (s : Store) (a : String)
      → IsConsistent s
      → Moves (status s a) (status (step precedes e s) a)
  unfolding step process_due settle_all delete_expired delete_graphs stays
  step-Moves (works w) s a c = Grows-Moves s (step precedes (works w) s) a (Grows-work w s)
  step-Moves (executes r ws now ending) s a c =
      execute-Moves (claim precedes r.now r.topic r.excluded r.locked s) ws now ending s a (λ t e.
        (All-claim precedes (λ u. known s.promises u.promise_id ≡ true) r.now r.topic r.excluded
          r.locked s t (tasks-known s c) e).0)
  step-Moves (processes locked task_locked now limit) s a c =
      find_promise-settle (due precedes locked task_locked now limit s) s.promises a
  step-Moves (deletes locked before limit) s a c =
      keep-Moves (doomed precedes locked before limit s.promises) s.promises a c.unique
        (doomed-IsQuiet precedes locked before limit s.promises c.unique)
