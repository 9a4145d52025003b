-- ===== src/Store/Settle.antt =====
-- reaper/tasks/queries/settle.sql and retry.sql, and what they share with process_due.sql: promises
-- that settle, tasks that go, waiters that have fewer waits, topics that are told.
use reaper.Base.{
  ℕ, suc, ◌+◌, ◌-◌, String, Bool, not, ◌&&◌, ◌||◌, Option, none, some, List, [], ◌∷◌, map,
  if◌then◌else◌, ◌==◌, string_eq, nat_eq, leb, ltb,
}
use reaper.Store.Types.{PromiseState, PromiseRow, TaskRow, Store, is_pending}
use reaper.Store.Rows.{pending, keep, awaiting, has_task, any}

-- What a settlement writes: a result, or an error with its state.
pub data Outcome : Type 0 where
  resolved : Option String → Outcome
  rejected timed_out : Option String → Outcome

abbrev pub write : ℕ → Outcome → PromiseRow → PromiseRow
write now (resolved result) p = record p {
  state = PromiseState.resolved;
  result = result;
  settled_at = some now;
}
write now (rejected error) p = record p {
  state = PromiseState.rejected;
  error = error;
  settled_at = some now;
}
write now (timed_out error) p = record p {
  state = PromiseState.timed_out;
  error = error;
  settled_at = some now;
}

-- A settlement: the time, the timers that are due, the calls that end, and how they end.
pub record Settlement : Type 0 where
  pub now : ℕ
  pub timers : List String
  pub calls : List String
  pub outcome : Outcome

abbrev pub contains_id : List String → String → Bool
contains_id ids a = any (λ b. b == a) ids

abbrev pub hits : Settlement → String → Bool
hits e a = contains_id e.timers a || contains_id e.calls a

-- UPDATE reaper.promises … WHERE p.id = … AND p.state = 'pending'
unfoldable pub settle_row : Settlement → PromiseRow → PromiseRow
settle_row e p =
    if is_pending p.state
    then (if contains_id e.timers p.id
        then write e.now (resolved (some "null")) p
        else if contains_id e.calls p.id
        then write e.now e.outcome p
        else p)
    else p

-- The ids that the updates return.
abbrev pub settled : Settlement → List PromiseRow → String → Bool
settled e ps a = pending ps a && hits e a

abbrev pub removed : Settlement → List PromiseRow → String → Bool
removed e ps a = pending ps a && contains_id e.calls a

-- `ready`: `settled_count` waits of the waiter have settled.
unfoldable pub wake_row : ℕ → ℕ → TaskRow → TaskRow
wake_row now settled_count t = if settled_count == 0 || t.pending_waits == 0 then t else record t {
  pending_waits = t.pending_waits - settled_count;
  available_at = if leb t.pending_waits settled_count then now else t.available_at;
}

-- The tasks that wait no longer, of which their topics are told.
abbrev pub wakes : ℕ → TaskRow → Bool
wakes settled_count t =
    not (settled_count == 0) && (not (t.pending_waits == 0) && leb t.pending_waits settled_count)

-- `ready` updates the row.
abbrev pub is_woken : ℕ → TaskRow → Bool
is_woken settled_count t = not (settled_count == 0) && not (t.pending_waits == 0)

abbrev pub woken : Settlement → Store → String → Bool
woken e s a =
    any
      (λ t. t.promise_id == a && is_woken (awaiting (settled e s.promises) s.waits t.promise_id) t)
      s.tasks

-- `removed` deletes the row. Of an update and a deletion of one row in one statement PostgreSQL carries
-- out the first alone, and the main query reads `ready` before `removed` runs: a task that is woken
-- stays.
abbrev pub deleted : Settlement → Store → String → Bool
deleted e s a = removed e s.promises a && not (woken e s a)

-- The tables after the statement, in which the tasks of `gone` and their waits are deleted.
abbrev pub settle_with : (String → Bool) → Settlement → Store → Store
settle_with gone e s =
    let count = awaiting (settled e s.promises) s.waits in
    record s {
      promises = map (settle_row e) s.promises;
      tasks =
          map (λ t. wake_row e.now (count t.promise_id) t)
            (keep (λ t. not (gone t.promise_id)) s.tasks);
      waits = keep (λ w. not (gone w.waiter_id)) s.waits;
    }

unfoldable pub settle_all : Settlement → Store → Store
unfolding settle_row wake_row
settle_all e s = settle_with (deleted e s) e s

-- pg_notify for the topics of the waiters that are ready.
unfoldable pub notified : Settlement → Store → List String
notified e s =
    let count = awaiting (settled e s.promises) s.waits in
    map (λ t. t.topic) (keep (λ t. wakes (count t.promise_id) t) s.tasks)

-- settle.sql, for a promise that has a task.
abbrev pub settlement : ℕ → String → Outcome → Settlement
settlement now id outcome = record { now = now; timers = []; calls = id ∷ []; outcome = outcome }

unfoldable pub settle : ℕ → String → Outcome → Store → Store
unfolding settle_all
settle now id outcome s =
    if has_task s.tasks id then settle_all (settlement now id outcome) s else s

-- `retried`: one more failure, and another try after the delay.
unfoldable pub retry_row : ℕ → TaskRow → TaskRow
retry_row later t = record t { failures = suc t.failures; available_at = later }

abbrev pub update_tasks : (TaskRow → TaskRow) → String → List TaskRow → List TaskRow
update_tasks f id ts = map (λ t. if t.promise_id == id then f t else t) ts

unfoldable pub find_task : List TaskRow → String → Option TaskRow
find_task [] id = none
find_task (t ∷ ts) id = if t.promise_id == id then some t else find_task ts id

-- retry.sql: the last failure rejects the promise.
unfoldable pub retry : ℕ → String → String → ℕ → Store → Store
unfolding settle_all retry_row
retry now id error delay_ms s = elim (find_task s.tasks id) [
  | none ↦ s
  | some t ↦
      if not (pending s.promises id)
      then s
      else if ltb (suc t.failures) t.max_failures
      then record s { tasks = update_tasks (retry_row (now + delay_ms)) id s.tasks }
      else settle_all (settlement now id (rejected (some error))) s
]
