-- ===== src/Store/Invariant.antt =====
-- What the statements of the store keep.
use reaper.Base.{ℕ, ◌≡◌, String, false, ◌&&◌, some, List, [], ◌∷◌, All, string_eq}
use reaper.Store.Types.{PromiseRow, TaskRow, WaitRow, Store}
use reaper.Store.Rows.{known, pending, pending_call, pending_timer, has_task, awaiting}
use reaper.Store.Suspend.{graph_of}

-- The waits of a task on promises that are pending.
abbrev pub blockers : List PromiseRow → List WaitRow → String → ℕ
blockers ps ws a = awaiting (pending ps) ws a

abbrev pub IsCounted : List PromiseRow → List WaitRow → TaskRow → Type 0
IsCounted ps ws t = t.pending_waits ≡ blockers ps ws t.promise_id

-- A wait joins two promises of its graph.
abbrev pub IsLinked : List PromiseRow → WaitRow → Type 0
IsLinked ps w =
    (graph_of ps w.waiter_id ≡ some w.graph_id) × (graph_of ps w.awaited_id ≡ some w.graph_id)

-- No two promises have the same id.
abbrev pub IsUnique : List PromiseRow → Type 0
IsUnique [] = Unit
IsUnique (p ∷ ps) = (known ps p.id ≡ false) × IsUnique ps

-- A task counts the pending promises that it awaits; there is a task for a promise exactly when it is
-- a pending call; ids are unique; no id is both a call's and a timer's; waits join promises of one
-- graph.
pub record IsConsistent (s : Store) : Type 0 where
  pub counted : All (IsCounted s.promises s.waits) s.tasks
  pub owned : (a : String) → has_task s.tasks a ≡ pending_call s.promises a
  pub unique : IsUnique s.promises
  pub one_kind : (a : String) → (pending_call s.promises a && pending_timer s.promises a) ≡ false
  pub linked : All (IsLinked s.promises) s.waits
