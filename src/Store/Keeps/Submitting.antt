-- ===== src/Store/Keeps/Submitting.antt =====
-- submit_calls.sql and submit_timer.sql.
use reaper.Base.{
  ◌≡◌, refl, sym, String, Bool, true, false, not, ◌&&◌, ◌||◌, some, List, [], ◌∷◌, ◌++◌, All,
  All-append, All-map, if_elim, ◌==◌, string_eq, arith, ◌∙◌,
}
use reaper.Store.Types.{PromiseRow, TaskRow, WaitRow, Store, is_pending, is_some}
use reaper.Store.Rows.{
  known, pending, pending_call, pending_timer, has_task, awaiting, any, find_promise,
}
use reaper.Store.Suspend.{graph_of}
use reaper.Store.Submit.{
  Request, Timer, call_row, task_row, timer_row, submit_one, submit_calls, insert_timer,
}
use reaper.Store.Invariant.{blockers, IsCounted, IsLinked, IsUnique, IsConsistent}

pub any-append {ℓ} :
    {A : Type ℓ} (test : A → Bool) (xs ys : List A)
    → any test (xs ++ ys) ≡ (any test xs || any test ys)
any-append test [] ys = refl
any-append test (x ∷ xs) ys = ground (arith, any-append test xs ys)

has_task-append :
    (ts : List TaskRow) (t : TaskRow) (a : String)
    → has_task (ts ++ t ∷ []) a ≡ (has_task ts a || t.promise_id == a)
unfolding has_task
has_task-append ts t a = ground (arith, any-append (λ u. u.promise_id == a) ts (t ∷ []))

pending_call-append :
    (ps : List PromiseRow) (p : PromiseRow) (a : String)
    → pending_call (ps ++ p ∷ []) a
      ≡ (pending_call ps a || (p.id == a && (is_pending p.state && not (is_some p.due_at))))
unfolding pending_call
pending_call-append ps p a = ground (
  arith,
  any-append (λ q. q.id == a && (is_pending q.state && not (is_some q.due_at))) ps (p ∷ []),
)

pending_timer-append :
    (ps : List PromiseRow) (p : PromiseRow) (a : String)
    → pending_timer (ps ++ p ∷ []) a
      ≡ (pending_timer ps a || (p.id == a && (is_pending p.state && is_some p.due_at)))
unfolding pending_timer
pending_timer-append ps p a =
    ground
      (arith, any-append (λ q. q.id == a && (is_pending q.state && is_some q.due_at)) ps (p ∷ []))

-- A row that is not known is pending in no way.
pub unknown-pending :
    (ps : List PromiseRow) (a : String)
    → known ps a ≡ false
    → (pending ps a ≡ false) × (pending_call ps a ≡ false) × (pending_timer ps a ≡ false)
unfolding known pending pending_call pending_timer
unknown-pending [] a h = (refl, refl, refl)
unknown-pending (p ∷ ps) a h =
    let rest = unknown-pending ps a (ground (arith)) in
    (ground (arith), ground (arith), ground (arith))

graph_of-known : (ps : List PromiseRow) (a g : String) → graph_of ps a ≡ some g → known ps a ≡ true
unfolding known find_promise
graph_of-known [] a g h = cc
graph_of-known (p ∷ ps) a g h = ground (arith, graph_of-known ps a g)

graph_of-append :
    (ps : List PromiseRow) (p : PromiseRow) (a g : String)
    → graph_of ps a ≡ some g
    → graph_of (ps ++ p ∷ []) a ≡ some g
unfolding find_promise
graph_of-append [] p a g h = cc
graph_of-append (q ∷ ps) p a g h = ground (arith, graph_of-append ps p a g)

known-append :
    (ps : List PromiseRow) (p : PromiseRow) (a : String)
    → known (ps ++ p ∷ []) a ≡ (known ps a || p.id == a)
unfolding known
known-append ps p a = ground (arith, any-append (λ q. q.id == a) ps (p ∷ []))

IsUnique-append :
    (ps : List PromiseRow) (p : PromiseRow)
    → known ps p.id ≡ false
    → IsUnique ps
    → IsUnique (ps ++ p ∷ [])
unfolding known
IsUnique-append [] p h u = (refl, tt)
IsUnique-append (q ∷ ps) p h u = (
  ground
      (arith, known-append ps p q.id, string_eq.agrees p.id q.id, string_eq.agrees q.id p.id, u.0),
  IsUnique-append ps p (ground (arith)) u.1,
)

module _ (ps : List PromiseRow) (p : PromiseRow) (new : known ps p.id ≡ false) where
  IsLinked-new : (w : WaitRow) → IsLinked ps w → IsLinked (ps ++ p ∷ []) w
  IsLinked-new w h = (
    graph_of-append ps p w.waiter_id w.graph_id h.0,
    graph_of-append ps p w.awaited_id w.graph_id h.1,
  )

  -- The waits do not know the new promise.
  pub blockers-new :
      (ws : List WaitRow) (a : String)
      → All (IsLinked ps) ws
      → blockers (ps ++ p ∷ []) ws a ≡ blockers ps ws a
  unfolding awaiting pending
  blockers-new [] a h = refl
  blockers-new (w ∷ ws) a h = ground (
    arith,
    blockers-new ws a h.1,
    graph_of-known ps w.awaited_id w.graph_id h.0.1,
    any-append (λ q. q.id == w.awaited_id && is_pending q.state) ps (p ∷ []),
    string_eq.agrees p.id w.awaited_id,
  )

  blockers-newcomer : (ws : List WaitRow) → All (IsLinked ps) ws → blockers ps ws p.id ≡ 0
  unfolding awaiting
  blockers-newcomer [] h = refl
  blockers-newcomer (w ∷ ws) h = ground (
    arith,
    blockers-newcomer ws h.1,
    graph_of-known ps w.waiter_id w.graph_id h.0.0,
    string_eq.agrees w.waiter_id p.id,
  )

  All-IsCounted-new :
      (ws : List WaitRow) (ts : List TaskRow)
      → All (IsLinked ps) ws
      → All (IsCounted ps ws) ts
      → All (IsCounted (ps ++ p ∷ []) ws) ts
  All-IsCounted-new ws ts linked =
      All-map (IsCounted ps ws) (IsCounted (ps ++ p ∷ []) ws) ts
        (λ t h. h ∙ sym (blockers-new ws t.promise_id linked))

  -- No promise is both a call and a timer when a new one comes.
  one_kind-new :
      (a : String)
      → (pending_call ps a && pending_timer ps a) ≡ false
      → (pending_call (ps ++ p ∷ []) a && pending_timer (ps ++ p ∷ []) a) ≡ false
  one_kind-new a h = ground (
    arith,
    pending_call-append ps p a,
    pending_timer-append ps p a,
    string_eq.agrees p.id a,
    unknown-pending ps p.id new,
  )

pub submit_one-IsConsistent :
    (r : Request) (s : Store) → IsConsistent s → IsConsistent (submit_one r s)
unfolding submit_one
submit_one-IsConsistent r s c =
    if_elim IsConsistent (known s.promises r.id) _ _ (λ _. c)
      (λ new. record {
        counted =
            All-append (IsCounted (s.promises ++ call_row r ∷ []) s.waits) s.tasks (task_row r ∷ [])
              (All-IsCounted-new s.promises (call_row r) new s.waits s.tasks c.linked c.counted)
              (
                sym (
                    blockers-new s.promises (call_row r) new s.waits r.id c.linked
                    ∙ blockers-newcomer s.promises (call_row r) new s.waits c.linked),
                tt,
              );
        owned = λ a. ground (
          arith,
          has_task-append s.tasks (task_row r) a,
          c.owned a,
          pending_call-append s.promises (call_row r) a,
        );
        unique = IsUnique-append s.promises (call_row r) new c.unique;
        one_kind = λ a. one_kind-new s.promises (call_row r) new a (c.one_kind a);
        linked =
            All-map (IsLinked s.promises) (IsLinked (s.promises ++ call_row r ∷ [])) s.waits
              (IsLinked-new s.promises (call_row r) new) c.linked;
      })

pub submit_calls-IsConsistent :
    (rs : List Request) (s : Store) → IsConsistent s → IsConsistent (submit_calls rs s)
unfolding submit_calls
submit_calls-IsConsistent [] s c = c
submit_calls-IsConsistent (r ∷ rs) s c =
    submit_calls-IsConsistent rs (submit_one r s) (submit_one-IsConsistent r s c)

pub insert_timer-IsConsistent :
    (t : Timer) (s : Store) → IsConsistent s → IsConsistent (insert_timer t s)
unfolding insert_timer
insert_timer-IsConsistent t s c =
    if_elim IsConsistent (known s.promises t.id) _ _ (λ _. c)
      (λ new. record {
        counted = All-IsCounted-new s.promises (timer_row t) new s.waits s.tasks c.linked c.counted;
        owned = λ a. ground (arith, c.owned a, pending_call-append s.promises (timer_row t) a);
        unique = IsUnique-append s.promises (timer_row t) new c.unique;
        one_kind = λ a. one_kind-new s.promises (timer_row t) new a (c.one_kind a);
        linked =
            All-map (IsLinked s.promises) (IsLinked (s.promises ++ timer_row t ∷ [])) s.waits
              (IsLinked-new s.promises (timer_row t) new) c.linked;
      })
