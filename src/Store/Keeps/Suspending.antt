-- ===== src/Store/Keeps/Suspending.antt =====
-- suspend_task.sql: the task of a claim, which waits for nothing, begins to wait.
use reaper.Base.{
  ℕ, ◌+◌, ◌≡◌, refl, sym, String, Bool, true, false, ◌&&◌, ◌||◌, Option, none, some, List, [], ◌∷◌,
  ◌++◌, All, All-append, if◌then◌else◌, if_elim, ◌==◌, string_eq, one, arith, ◌∙◌, Bool-cases, inl,
  inr,
}
use reaper.Store.Types.{PromiseRow, TaskRow, WaitRow, Store}
use reaper.Store.Rows.{pending, has_task, awaiting}
use reaper.Store.Settle.{update_tasks, contains_id}
use reaper.Store.Suspend.{
  graph_of, same_graph, all_in_graph, has_wait, insert_waits, count_pending, unique_ids,
  suspend_row, suspend_rows,
}
use reaper.Store.Invariant.{blockers, IsCounted, IsLinked, IsConsistent}

abbrev wait_row : String → String → String → WaitRow
wait_row waiter graph awaited = record {
  waiter_id = waiter;
  awaited_id = awaited;
  graph_id = graph;
}

awaiting-append :
    (test : String → Bool) (ws : List WaitRow) (w : WaitRow) (b : String)
    → awaiting test (ws ++ w ∷ []) b
      ≡ awaiting test ws b + one (w.waiter_id == b && test w.awaited_id)
unfolding awaiting
awaiting-append test [] w b = ground arith
awaiting-append test (v ∷ ws) w b = ground (arith, awaiting-append test ws w b)

has_wait-append :
    (ws : List WaitRow) (w : WaitRow) (a b : String)
    → has_wait (ws ++ w ∷ []) a b ≡ (has_wait ws a b || (w.waiter_id == a && w.awaited_id == b))
has_wait-append [] w a b = ground arith
has_wait-append (v ∷ ws) w a b = ground (arith, has_wait-append ws w a b)

-- Waits of another waiter stay as they were.
insert_waits-other :
    (test : String → Bool) (id graph : String) (ids : List String) (ws : List WaitRow) (b : String)
    → (id == b) ≡ false
    → awaiting test (insert_waits id graph ids ws) b ≡ awaiting test ws b
unfolding insert_waits
insert_waits-other test id graph [] ws b h = refl
insert_waits-other test id graph (a ∷ ids) ws b h = elim (Bool-cases (has_wait ws id a)) [
  | inl old ↦ rw old (insert_waits-other test id graph ids ws b h)
  | inr new ↦ rw new (
      insert_waits-other test id graph ids (ws ++ wait_row id graph a ∷ []) b h
      ∙ ground (arith, awaiting-append test ws (wait_row id graph a) b))
]

same_graph_lem : (graph : String) (o : Option String) → same_graph graph o ≡ true → o ≡ some graph
same_graph_lem graph none h = ground arith
same_graph_lem graph (some g) h = ground (arith, string_eq.agrees g graph)

pub has_task-update_tasks :
    (f : TaskRow → TaskRow) (id : String) (ts : List TaskRow) (a : String)
    → ((t : TaskRow) → (f t).promise_id ≡ t.promise_id)
    → has_task (update_tasks f id ts) a ≡ has_task ts a
unfolding has_task
has_task-update_tasks f id [] a same = refl
has_task-update_tasks f id (t ∷ ts) a same =
    ground (arith, same t, has_task-update_tasks f id ts a same)

pub All-update_tasks {ℓ κ} :
    (P : TaskRow → Type ℓ) (Q : TaskRow → Type κ) (f : TaskRow → TaskRow) (id : String)
    (ts : List TaskRow)
    → ((t : TaskRow) → P t → t.promise_id == id ≡ true → Q (f t))
    → ((t : TaskRow) → P t → t.promise_id == id ≡ false → Q t)
    → All P ts
    → All Q (update_tasks f id ts)
All-update_tasks P Q f id [] there other h = tt
All-update_tasks P Q f id (t ∷ ts) there other h = (
  if_elim Q (t.promise_id == id) _ _ (there t h.0) (other t h.0),
  All-update_tasks P Q f id ts there other h.1,
)

module _ (ps : List PromiseRow) (id graph : String) where
  -- What is still to be awaited is not awaited yet.
  abbrev IsFresh : List WaitRow → String → Type 0
  IsFresh ws a = (pending ps a && has_wait ws id a) ≡ false

  blockers-IsFresh : (ws : List WaitRow) (a : String) → blockers ps ws id ≡ 0 → IsFresh ws a
  unfolding awaiting
  blockers-IsFresh [] a h = ground arith
  blockers-IsFresh (w ∷ ws) a h =
      ground (arith, blockers-IsFresh ws a, string_eq.agrees w.awaited_id a)

  IsFresh-append :
      (ws : List WaitRow) (a : String) (ids : List String)
      → contains_id ids a ≡ false
      → All (IsFresh ws) ids
      → All (IsFresh (ws ++ wait_row id graph a ∷ [])) ids
  IsFresh-append ws a [] h f = tt
  IsFresh-append ws a (b ∷ ids) h f = (
    ground (
      arith,
      f.0,
      has_wait-append ws (wait_row id graph a) id b,
      string_eq.agrees a b,
      string_eq.agrees b a,
    ),
    IsFresh-append ws a ids (ground arith) f.1,
  )

  blockers-insert_waits :
      (ids : List String) (ws : List WaitRow)
      → unique_ids ids ≡ true
      → All (IsFresh ws) ids
      → blockers ps (insert_waits id graph ids ws) id ≡ blockers ps ws id + count_pending ps ids
  unfolding insert_waits
  blockers-insert_waits [] ws u f = ground arith
  blockers-insert_waits (a ∷ ids) ws u f = elim (Bool-cases (has_wait ws id a)) [
    | inl old ↦ rw old (ground (arith, blockers-insert_waits ids ws (ground arith) f.1, f.0))
    | inr new ↦
        let more = ws ++ wait_row id graph a ∷ [] in
        rw new (
          ground (
            arith,
            blockers-insert_waits ids more (ground arith)
                (IsFresh-append ws a ids (ground arith) f.1),
            awaiting-append (pending ps) ws (wait_row id graph a) id,
            string_eq.agrees id id,
          ))
  ]

  All-IsFresh :
      (ws : List WaitRow) (ids : List String) → blockers ps ws id ≡ 0 → All (IsFresh ws) ids
  All-IsFresh ws [] h = tt
  All-IsFresh ws (a ∷ ids) h = (blockers-IsFresh ws a h, All-IsFresh ws ids h)

  -- New waits stay in the graph of the waiter.
  insert_waits-IsLinked :
      (ids : List String) (ws : List WaitRow)
      → graph_of ps id ≡ some graph
      → all_in_graph ps graph ids ≡ true
      → All (IsLinked ps) ws
      → All (IsLinked ps) (insert_waits id graph ids ws)
  unfolding insert_waits
  insert_waits-IsLinked [] ws g h l = l
  insert_waits-IsLinked (a ∷ ids) ws g h l =
      insert_waits-IsLinked ids (if has_wait ws id a then ws else ws ++ wait_row id graph a ∷ []) g
        (ground arith)
        (if_elim (All (IsLinked ps)) (has_wait ws id a) _ _ (λ _. l)
          (λ _.
            All-append (IsLinked ps) ws (wait_row id graph a ∷ []) l
              ((g, same_graph_lem graph (graph_of ps a) (ground arith)), tt)))

pub suspend_rows-IsConsistent :
    (now : ℕ) (id graph : String) (ids : List String) (s : Store)
    → blockers s.promises s.waits id ≡ 0
    → unique_ids ids ≡ true
    → graph_of s.promises id ≡ some graph
    → all_in_graph s.promises graph ids ≡ true
    → IsConsistent s
    → IsConsistent (suspend_rows now id graph ids s)
unfolding suspend_rows
suspend_rows-IsConsistent now id graph ids s free u g h c = record {
  counted =
      All-update_tasks (IsCounted s.promises s.waits)
        (IsCounted s.promises (insert_waits id graph ids s.waits))
        (suspend_row now (count_pending s.promises ids)) id s.tasks
        (λ t _ e. ground (
          arith,
          free,
          string_eq.agrees t.promise_id id,
          blockers-insert_waits s.promises id graph ids s.waits u
              (All-IsFresh s.promises id graph s.waits ids free),
        ))
        (λ t k e.
          k
          ∙ sym (
              insert_waits-other (pending s.promises) id graph ids s.waits t.promise_id (
                ground
                  (arith, string_eq.agrees t.promise_id id, string_eq.agrees id t.promise_id))))
        c.counted;
  owned = λ a.
      has_task-update_tasks (suspend_row now (count_pending s.promises ids)) id s.tasks a
        (λ t. refl)
      ∙ c.owned a;
  unique = c.unique;
  one_kind = c.one_kind;
  linked = insert_waits-IsLinked s.promises id graph ids s.waits g h c.linked;
}
