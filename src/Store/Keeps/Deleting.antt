-- ===== src/Store/Keeps/Deleting.antt =====
-- delete_expired.sql: whole graphs go, and none that has a pending promise.
use reaper.Base.{
  ℕ, ◌≡◌, refl, sym, String, Bool, true, false, not, ◌&&◌, none, List, [], ◌∷◌, All, All-map, subst,
  ◌==◌, string_eq, arith, ◌∙◌, Bool-cases, Option-cases, inl, inr, ap,
}
use reaper.Store.Types.{PromiseRow, TaskRow, WaitRow, Store, is_pending, is_some, graph_id}
use reaper.Store.Rows.{any, keep, pending, has_task}
use reaper.Store.Settle.{contains_id}
use reaper.Store.Suspend.{graph_of}
use reaper.Store.Maintain.{
  goes, delete_graphs, doomed, delete_expired, is_doomed, has_pending_child,
}
use reaper.Store.Invariant.{IsCounted, IsLinked, IsUnique, IsConsistent}
use reaper.Store.Keeps.Settled.{pending_call-pending}
use reaper.Store.Keeps.Settling.{awaiting-keep}
use reaper.Store.Keeps.Statements.{contains_id-select_ids, any-weaken}
use reaper.Store.Keeps.Graphs.{
  keep-all, All-keep-kept, All-any, All-both, IsSole, All-IsSole, IsQuiet, stays, quiet-goes,
  graph_of-keep, IsUnique-keep, pending_call-keep, pending_timer-keep, awaiting-pending-keep,
}

module _ (roots : List String) (s : Store) (c : IsConsistent s)
    (q : All (IsQuiet roots) s.promises) where
  -- The graph of a task stays.
  task-goes : (a : String) → has_task s.tasks a ≡ true → goes roots (graph_of s.promises a) ≡ false
  task-goes a h =
      quiet-goes roots s.promises a c.unique q
        (pending_call-pending s.promises a (sym (c.owned a) ∙ h))

  -- Every task has its own promise, which is pending.
  tasks-stay : All (λ t. goes roots (graph_of s.promises t.promise_id) ≡ false) s.tasks
  unfolding has_task
  tasks-stay =
      All-map (λ t. (test : TaskRow → Bool) → test t ≡ true → any test s.tasks ≡ true)
        (λ t. goes roots (graph_of s.promises t.promise_id) ≡ false) s.tasks
        (λ t f. task-goes t.promise_id (
          f (λ u. u.promise_id == t.promise_id)
            (ground (arith, string_eq.agrees t.promise_id t.promise_id))))
        (All-any s.tasks)

  abbrev gone : String → Bool
  gone a = goes roots (graph_of s.promises a)

  tasks-kept : keep (λ t. not (gone t.promise_id)) s.tasks ≡ s.tasks
  tasks-kept =
      keep-all (λ t. not (gone t.promise_id)) s.tasks
        (All-map (λ t. gone t.promise_id ≡ false) (λ t. not (gone t.promise_id) ≡ true) s.tasks
          (λ t h. ap not h) tasks-stay)

  abbrev left_waits : List WaitRow
  left_waits = keep (λ w. not (gone w.waiter_id)) s.waits

  IsCounted-keep :
      (t : TaskRow)
      → IsCounted s.promises s.waits t × (gone t.promise_id ≡ false)
      → IsCounted (keep (stays roots) s.promises) left_waits t
  IsCounted-keep t h =
      h.0
      ∙ sym (
          awaiting-pending-keep roots s.promises q left_waits t.promise_id
          ∙ awaiting-keep (pending s.promises) gone s.waits t.promise_id h.1)

  IsLinked-keep :
      (w : WaitRow)
      → IsLinked s.promises w × (not (gone w.waiter_id) ≡ true)
      → IsLinked (keep (stays roots) s.promises) w
  IsLinked-keep w h =
      let left : contains_id roots w.graph_id ≡ false =
        sym (ap (goes roots) h.0.0) ∙ ground (arith, h.1) in
      (
        graph_of-keep roots s.promises w.waiter_id w.graph_id h.0.0 left,
        graph_of-keep roots s.promises w.awaited_id w.graph_id h.0.1 left,
      )

  pub delete_graphs-IsConsistent : IsConsistent (delete_graphs roots s)
  unfolding delete_graphs stays
  delete_graphs-IsConsistent = record {
    counted = subst (All (IsCounted (keep (stays roots) s.promises) left_waits)) (sym tasks-kept) (
        All-map (λ t. IsCounted s.promises s.waits t × (gone t.promise_id ≡ false))
          (IsCounted (keep (stays roots) s.promises) left_waits) s.tasks IsCounted-keep
          (All-both (IsCounted s.promises s.waits) (λ t. gone t.promise_id ≡ false) s.tasks
            c.counted tasks-stay));
    owned = λ a.
        ap (λ ts. has_task ts a) tasks-kept
        ∙ (c.owned a ∙ sym (pending_call-keep roots s.promises q a));
    unique = IsUnique-keep roots s.promises c.unique;
    one_kind = λ a. ground (
      arith,
      pending_call-keep roots s.promises q a,
      pending_timer-keep roots s.promises q a,
      c.one_kind a,
    );
    linked =
        All-map (λ w. IsLinked s.promises w × (not (gone w.waiter_id) ≡ true))
          (IsLinked (keep (stays roots) s.promises)) (keep (λ w. not (gone w.waiter_id)) s.waits)
          IsLinked-keep
          (All-keep-kept (IsLinked s.promises) (λ w. not (gone w.waiter_id)) s.waits c.linked);
  }

any-at :
    (test : String → Bool) (ps : List PromiseRow) (a : String)
    → any (λ p. test p.id && p.id == a) ps ≡ true
    → test a ≡ true
any-at test [] a h = ground arith
any-at test (p ∷ ps) a h = ground (arith, any-at test ps a, string_eq.agrees p.id a)

graph_id-none : (p : PromiseRow) → p.root_id ≡ none → graph_id p ≡ p.id
graph_id-none p h = rw h refl

-- A root that is doomed is not pending, and has no pending child.
module _ (locked : String → Bool) (before : ℕ) (ps : List PromiseRow) where
  abbrev dooms : PromiseRow → PromiseRow → Bool
  dooms p r = is_doomed locked before ps r && r.id == graph_id p

  root-spared :
      (p : PromiseRow)
      → IsSole ps p
      → is_pending p.state ≡ true
      → p.root_id ≡ none
      → any (dooms p) ps ≡ false
  root-spared p sole h root = elim (Bool-cases (any (dooms p) ps)) [
    | inr left ↦ left
    | inl e ↦
        let e' : any (λ r. is_doomed locked before ps r && r.id == p.id) ps ≡ true =
          subst (λ g. any (λ r. is_doomed locked before ps r && r.id == g) ps ≡ true)
            (graph_id-none p root) e in
        ground (arith, sole (is_doomed locked before ps) e', h)
  ]

  child-spared :
      (p : PromiseRow) → has_pending_child ps (graph_id p) ≡ true → any (dooms p) ps ≡ false
  child-spared p h = elim (Bool-cases (any (dooms p) ps)) [
    | inr left ↦ left
    | inl e ↦ ground (
      arith,
      h,
      any-at (λ a. not (has_pending_child ps a)) ps (graph_id p)
          (any-weaken (λ r. not (has_pending_child ps r.id) && r.id == graph_id p) (dooms p) ps
            (λ r k. ground (arith, k)) e),
    )
  ]

  spared :
      (p : PromiseRow)
      → IsSole ps p × ((test : PromiseRow → Bool) → test p ≡ true → any test ps ≡ true)
      → is_pending p.state ≡ true
      → any (dooms p) ps ≡ false
  spared p f h = elim (Option-cases p.root_id) [
    | inl root ↦ root-spared p f.0 h root
    | inr (root, e) ↦ child-spared p (
        f.1 (λ c. graph_id c == graph_id p && (is_some c.root_id && is_pending c.state))
          (ground (arith, ap is_some e, h, string_eq.agrees (graph_id p) (graph_id p))))
  ]

pub doomed-IsQuiet :
    (precedes : String → String → Bool) (locked : String → Bool) (before limit : ℕ)
    (ps : List PromiseRow)
    → IsUnique ps
    → All (IsQuiet (doomed precedes locked before limit ps)) ps
unfolding doomed
doomed-IsQuiet precedes locked before limit ps u =
    All-map (λ p. IsSole ps p × ((test : PromiseRow → Bool) → test p ≡ true → any test ps ≡ true))
      (IsQuiet (doomed precedes locked before limit ps)) ps
      (λ p f h.
        elim (Bool-cases (contains_id (doomed precedes locked before limit ps) (graph_id p))) [
          | inr left ↦ left
          | inl chosen ↦ ground (
            arith,
            spared locked before ps p f h,
            contains_id-select_ids precedes (λ r. r.delete_after) limit (is_doomed locked before ps)
                ps (graph_id p) chosen,
          )
        ])
      (All-both (IsSole ps) _ ps (All-IsSole ps u) (All-any ps))

pub delete_expired-IsConsistent :
    (precedes : String → String → Bool) (locked : String → Bool) (before limit : ℕ) (s : Store)
    → IsConsistent s
    → IsConsistent (delete_expired precedes locked before limit s).0
unfolding delete_expired
delete_expired-IsConsistent precedes locked before limit s c =
    delete_graphs-IsConsistent (doomed precedes locked before limit s.promises) s c
      (doomed-IsQuiet precedes locked before limit s.promises c.unique)
