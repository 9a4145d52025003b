-- ===== src/Store/Maintain.antt =====
-- process_due and delete_expired of reaper/maintenance/__init__.py, with their statements
-- reaper/maintenance/queries/process_due.sql and delete_expired.sql.
use reaper.Base.{
  ℕ, String, Bool, false, not, ◌&&◌, ◌||◌, Option, none, some, List, map, ◌==◌, string_eq, nat_eq,
  leb, ltb, length,
}
use reaper.Store.Types.{PromiseRow, TaskRow, Store, is_pending, is_some, graph_id}
use reaper.Store.Rows.{any, keep, has_task}
use reaper.Store.Order.{sort_by, limited}
use reaper.Store.Settle.{Settlement, timed_out, settle_all, contains_id}
use reaper.Store.Suspend.{graph_of}

-- A time that has come.
abbrev pub has_come : ℕ → Option ℕ → Bool
has_come now none = false
has_come now (some t) = leb t now

abbrev pub time_of : Option ℕ → ℕ
time_of none = 0
time_of (some t) = t

-- The graph of a promise is among those that go.
abbrev pub goes : List String → Option String → Bool
goes roots none = false
goes roots (some graph) = contains_id roots graph

-- The rows of a graph go with its root, a task with its promise, waits with their waiter.
unfoldable pub delete_graphs : List String → Store → Store
delete_graphs roots s = record s {
  promises = keep (λ p. not (contains_id roots (graph_id p))) s.promises;
  tasks = keep (λ t. not (goes roots (graph_of s.promises t.promise_id))) s.tasks;
  waits = keep (λ w. not (goes roots (graph_of s.promises w.waiter_id))) s.waits;
}

pub record ProcessedDue : Type 0 where
  pub timers : ℕ
  pub timeouts : ℕ

module _ (precedes : String → String → Bool) where
  -- ORDER BY a time, then the id.
  abbrev pub by_time : (PromiseRow → Option ℕ) → PromiseRow → PromiseRow → Bool
  by_time time p q =
      ltb (time_of (time p)) (time_of (time q))
      || (time_of (time p) == time_of (time q) && precedes p.id q.id)

  abbrev pub select_ids :
      (PromiseRow → Option ℕ) → ℕ → (PromiseRow → Bool) → List PromiseRow → List String
  select_ids time limit test ps =
      map (λ p. p.id) (limited limit (sort_by (by_time time) (keep test ps)))

-- No child of the graph is pending.
abbrev pub has_pending_child : List PromiseRow → String → Bool
has_pending_child ps root =
    any (λ c. graph_id c == root && (is_some c.root_id && is_pending c.state)) ps

-- Rows that another transaction has locked are skipped.
module _ (locked : String → Bool) where
  abbrev pub is_due : ℕ → PromiseRow → Bool
  is_due now p = is_pending p.state && (has_come now p.due_at && not (locked p.id))

  abbrev pub is_expired : ℕ → List TaskRow → PromiseRow → Bool
  is_expired now ts p =
      is_pending p.state && (has_come now p.expires_at && (has_task ts p.id && not (locked p.id)))

  abbrev pub is_doomed : ℕ → List PromiseRow → PromiseRow → Bool
  is_doomed before ps p =
      not (is_some p.root_id)
      && (has_come before p.delete_after
          && (not (is_pending p.state) && (not (has_pending_child ps p.id) && not (locked p.id))))

-- The locks on promises, and those on tasks.
module _ (precedes : String → String → Bool) (locked task_locked : String → Bool) where
  unfoldable pub due : ℕ → ℕ → Store → Settlement
  due now limit s = record {
    now = now;
    timers = select_ids precedes (λ p. p.due_at) limit (is_due locked now) s.promises;
    calls =
        keep (λ a. not (locked a))
          (select_ids precedes (λ p. p.expires_at) limit (is_expired task_locked now s.tasks)
            s.promises);
    outcome = timed_out (some "{\"type\":\"PromiseTimeout\"}");
  }

  unfoldable pub process_due : ℕ → ℕ → Store → Store × ProcessedDue
  unfolding settle_all due
  process_due now limit s =
      let e = due now limit s in
      (settle_all e s, record { timers = length e.timers; timeouts = length e.calls })

module _ (precedes : String → String → Bool) (locked : String → Bool) where
  unfoldable pub doomed : ℕ → ℕ → List PromiseRow → List String
  doomed before limit ps =
      select_ids precedes (λ p. p.delete_after) limit (is_doomed locked before ps) ps

  unfoldable pub delete_expired : ℕ → ℕ → Store → Store × ℕ
  unfolding delete_graphs doomed
  delete_expired before limit s =
      let roots = doomed before limit s.promises in (delete_graphs roots s, length roots)
