-- ===== src/Store/Suspend.antt =====
-- suspend_task of reaper/waits/__init__.py, SuspendTask of reaper/waits/models.py, and
-- reaper/waits/queries/suspend_task.sql.
use reaper.Base.{
  ℕ, ◌+◌, String, Bool, true, false, not, ◌&&◌, Option, none, some, List, [], ◌∷◌, ◌++◌, one,
  if◌then◌else◌, ◌==◌, string_eq, leb, length,
}
use reaper.Store.Types.{PromiseRow, TaskRow, WaitRow, Store, graph_id}
use reaper.Store.Rows.{known, pending, any, has_task, find_promise}
use reaper.Store.Settle.{update_tasks, contains_id}

-- Waits that are there already: ON CONFLICT DO NOTHING.
abbrev pub has_wait : List WaitRow → String → String → Bool
has_wait ws waiter awaited = any (λ w. w.waiter_id == waiter && w.awaited_id == awaited) ws

unfoldable pub insert_waits : String → String → List String → List WaitRow → List WaitRow
insert_waits waiter graph [] ws = ws
insert_waits waiter graph (a ∷ awaited) ws = insert_waits waiter graph awaited (
    if has_wait ws waiter a
    then ws
    else ws ++ record { waiter_id = waiter; awaited_id = a; graph_id = graph } ∷ [])

-- The awaited promises that are pending.
abbrev pub count_pending : List PromiseRow → List String → ℕ
count_pending ps [] = 0
count_pending ps (a ∷ awaited) = one (pending ps a) + count_pending ps awaited

abbrev pub graph_of : List PromiseRow → String → Option String
graph_of ps a = elim (find_promise ps a) [ none ↦ none | some p ↦ some (graph_id p) ]

abbrev pub same_graph : String → Option String → Bool
same_graph graph none = false
same_graph graph (some g) = g == graph

-- `missing` is empty, and `same_root`.
abbrev pub all_in_graph : List PromiseRow → String → List String → Bool
all_in_graph ps graph [] = true
all_in_graph ps graph (a ∷ awaited) =
    same_graph graph (graph_of ps a) && all_in_graph ps graph awaited

abbrev pub suspend_row : ℕ → ℕ → TaskRow → TaskRow
suspend_row now waits t = record t { pending_waits = waits; available_at = now }

-- SuspendTask: from 1 to 1,024 ids, none of them twice, and not the waiter's.
abbrev pub unique_ids : List String → Bool
unique_ids [] = true
unique_ids (a ∷ ids) = not (contains_id ids a) && unique_ids ids

abbrev pub validate_awaits : String → List String → Bool
validate_awaits id awaited =
    leb 1 (length awaited)
    && (leb (length awaited) 1024 && (not (contains_id awaited id) && unique_ids awaited))

abbrev pub first_missing : List PromiseRow → List String → Option String
first_missing ps [] = none
first_missing ps (a ∷ awaited) = if known ps a then first_missing ps awaited else some a

-- What the statement inserts and updates when its checks pass.
unfoldable pub suspend_rows : ℕ → String → String → List String → Store → Store
unfolding insert_waits
suspend_rows now id graph awaited s = record s {
  tasks = update_tasks (suspend_row now (count_pending s.promises awaited)) id s.tasks;
  waits = insert_waits id graph awaited s.waits;
}

pub data SuspendFault : Type 0 where
  invalid_waits cross_graph_wait : SuspendFault
  task_not_found promise_not_found : String → SuspendFault

pub data Suspended : Type 0 where
  suspended : Store → Suspended
  refused : SuspendFault → Suspended

abbrev pub graph_checked : ℕ → String → Option String → List String → Store → Suspended
graph_checked now id none awaited s = refused (task_not_found id)
graph_checked now id (some graph) awaited s =
    if all_in_graph s.promises graph awaited
    then suspended (suspend_rows now id graph awaited s)
    else refused cross_graph_wait

abbrev pub missing_checked : ℕ → String → Option String → List String → Store → Suspended
missing_checked now id (some a) awaited s = refused (promise_not_found a)
missing_checked now id none awaited s = graph_checked now id (graph_of s.promises id) awaited s

unfoldable pub suspend_task : ℕ → String → List String → Store → Suspended
unfolding suspend_rows
suspend_task now id awaited s =
    if not (validate_awaits id awaited)
    then refused invalid_waits
    else if not (has_task s.tasks id)
    then refused (task_not_found id)
    else missing_checked now id (first_missing s.promises awaited) awaited s
