-- ===== src/Store/Keeps/Statements.antt =====
-- retry.sql, process_due.sql, and the functions around suspend_task.sql, settle.sql and retry.sql.
use reaper.Base.{
  ℕ, suc, ◌+◌, ◌≡◌, refl, sym, String, Bool, true, not, ◌&&◌, Option, none, some, List, [], ◌∷◌,
  map, if◌then◌else◌, if_elim, ◌==◌, string_eq, arith, ◌∙◌, Bool-cases, inl, inr, Option-cases, ltb,
}
use reaper.Store.Types.{PromiseRow, Store, is_pending, is_some}
use reaper.Store.Rows.{any, keep, pending, pending_timer, has_task}
use reaper.Store.Order.{sort_by, limited, any-sort_by, any-limited, any-keep}
use reaper.Store.Settle.{rejected, settlement, retry, retry_row, find_task, contains_id}
use reaper.Store.Suspend.{
  graph_of, first_missing, all_in_graph, unique_ids, validate_awaits, Suspended, suspended, refused,
  suspend_task, graph_checked, missing_checked,
}
use reaper.Store.Maintain.{due, process_due, by_time, select_ids, is_due, has_come}
use reaper.Store.Invariant.{blockers, IsCounted, IsConsistent}
use reaper.Store.Keeps.Settling.{settle_all-IsConsistent, IsTimed, IsApart, settlement-IsApart}
use reaper.Store.Keeps.Suspending.{
  suspend_rows-IsConsistent, has_task-update_tasks, All-update_tasks,
}

retry_row-IsConsistent :
    (later : ℕ) (id : String) (s : Store)
    → IsConsistent s
    → IsConsistent (record s {
      tasks = map (λ t. if t.promise_id == id then retry_row later t else t) s.tasks;
    })
unfolding retry_row
retry_row-IsConsistent later id s c = record {
  counted =
      All-update_tasks (IsCounted s.promises s.waits) (IsCounted s.promises s.waits)
        (retry_row later) id s.tasks (λ t k _. k) (λ t k _. k) c.counted;
  owned = λ a. has_task-update_tasks (retry_row later) id s.tasks a (λ t. refl) ∙ c.owned a;
  unique = c.unique;
  one_kind = c.one_kind;
  linked = c.linked;
}

pub retry-IsConsistent :
    (now : ℕ) (id error : String) (delay_ms : ℕ) (s : Store)
    → blockers s.promises s.waits id ≡ 0
    → IsConsistent s
    → IsConsistent (retry now id error delay_ms s)
unfolding retry
retry-IsConsistent now id error delay_ms s free c = elim (Option-cases (find_task s.tasks id)) [
  | inl none_found ↦ rw (retry, none_found) c
  | inr (t, found) ↦
      rw (retry, found)
        (if_elim IsConsistent (not (pending s.promises id)) _ _ (λ _. c)
          (λ _.
            if_elim IsConsistent (ltb (suc t.failures) t.max_failures) _ _
              (λ _. retry_row-IsConsistent (now + delay_ms) id s c)
              (λ _.
                settle_all-IsConsistent (settlement now id (rejected (some error))) s (λ a h. refl)
                  (settlement-IsApart now id (rejected (some error)) s free c) c)))
]

contains_id-map :
    (rows : List PromiseRow) (a : String)
    → contains_id (map (λ p. p.id) rows) a ≡ any (λ p. p.id == a) rows
contains_id-map [] a = refl
contains_id-map (p ∷ rows) a = ground (arith, contains_id-map rows a)

pub any-weaken {ℓ} :
    {A : Type ℓ} (weak strong : A → Bool) (xs : List A)
    → ((x : A) → strong x ≡ true → weak x ≡ true)
    → any strong xs ≡ true
    → any weak xs ≡ true
any-weaken weak strong [] f h = h
any-weaken weak strong (x ∷ xs) f h = ground (arith, f x, any-weaken weak strong xs f)

-- What a statement selects is a row that meets its test.
pub contains_id-select_ids :
    (precedes : String → String → Bool) (time : PromiseRow → Option ℕ) (n : ℕ)
    (test : PromiseRow → Bool) (ps : List PromiseRow) (a : String)
    → contains_id (select_ids precedes time n test ps) a ≡ true
    → any (λ p. test p && p.id == a) ps ≡ true
contains_id-select_ids precedes time n test ps a h =
    let order = by_time precedes time in
    let rows = sort_by order (keep test ps) in
    any-keep (λ p. p.id == a) test ps
      (sym (any-sort_by order (λ p. p.id == a) (keep test ps))
        ∙ any-limited (λ p. p.id == a) n rows (sym (contains_id-map (limited n rows) a) ∙ h))

has_come-is_some : (now : ℕ) (o : Option ℕ) → has_come now o ≡ true → is_some o ≡ true
has_come-is_some now none h = h
has_come-is_some now (some t) h = refl

due-IsTimed :
    (precedes : String → String → Bool) (locked task_locked : String → Bool) (now limit : ℕ)
    (s : Store)
    → IsConsistent s
    → IsTimed (due precedes locked task_locked now limit s) s.promises
unfolding due pending_timer
due-IsTimed precedes locked task_locked now limit s c a call =
    elim (Bool-cases (contains_id (due precedes locked task_locked now limit s).timers a)) [
      | inr left ↦ left
      | inl selected ↦ ground (
        arith,
        c.one_kind a,
        call,
        any-weaken (λ p. p.id == a && (is_pending p.state && is_some p.due_at))
            (λ p. is_due locked now p && p.id == a) s.promises (λ p h. due-timer p h)
            (contains_id-select_ids precedes (λ p. p.due_at) limit (is_due locked now) s.promises a
              selected),
      )
    ]
  where
    due-timer :
        (p : PromiseRow)
        → (is_due locked now p && p.id == a) ≡ true
        → (p.id == a && (is_pending p.state && is_some p.due_at)) ≡ true
    due-timer p h = ground (arith, has_come-is_some now p.due_at)

pub process_due-IsConsistent :
    (precedes : String → String → Bool) (locked task_locked : String → Bool) (now limit : ℕ)
    (s : Store)
    → IsApart (due precedes locked task_locked now limit s) s
    → IsConsistent s
    → IsConsistent (process_due precedes locked task_locked now limit s).0
unfolding process_due
process_due-IsConsistent precedes locked task_locked now limit s apart c =
    settle_all-IsConsistent (due precedes locked task_locked now limit s) s
      (due-IsTimed precedes locked task_locked now limit s c) apart c

abbrev pub IsKept : Suspended → Type 0
IsKept (suspended s) = IsConsistent s
IsKept (refused fault) = Unit

module _ (now : ℕ) (id : String) (ids : List String) (s : Store)
    (free : blockers s.promises s.waits id ≡ 0) (u : unique_ids ids ≡ true)
    (c : IsConsistent s) where
  graph_checked-IsKept :
      (o : Option String) → graph_of s.promises id ≡ o → IsKept (graph_checked now id o ids s)
  graph_checked-IsKept none e = tt
  graph_checked-IsKept (some graph) e =
      if_elim IsKept (all_in_graph s.promises graph ids) _ _
        (λ within. suspend_rows-IsConsistent now id graph ids s free u e within c) (λ _. tt)

  missing_checked-IsKept : (o : Option String) → IsKept (missing_checked now id o ids s)
  missing_checked-IsKept (some a) = tt
  missing_checked-IsKept none = graph_checked-IsKept (graph_of s.promises id) refl

pub suspend_task-IsKept :
    (now : ℕ) (id : String) (ids : List String) (s : Store)
    → blockers s.promises s.waits id ≡ 0
    → IsConsistent s
    → IsKept (suspend_task now id ids s)
unfolding suspend_task
suspend_task-IsKept now id ids s free c =
    if_elim IsKept (not (validate_awaits id ids)) _ _ (λ _. tt)
      (λ valid.
        if_elim IsKept (not (has_task s.tasks id)) _ _ (λ _. tt)
          (λ _.
            missing_checked-IsKept now id ids s free (ground (arith, valid)) c
              (first_missing s.promises ids)))
