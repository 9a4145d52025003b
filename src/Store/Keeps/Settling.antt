-- ===== src/Store/Keeps/Settling.antt =====
-- settle.sql and the settlements of process_due.sql.
use reaper.Base.{
  ap, subst, ◌==◌, nat_eq, ℕ, ◌+◌, ◌-◌, ◌≡◌, refl, String, Bool, true, false, not, ◌&&◌, List, [],
  ◌∷◌, map, All, All-map, ◌∙◌, if_elim, string_eq, arith, Bool-cases, inl, inr,
}
use reaper.Store.Types.{PromiseRow, TaskRow, WaitRow, Store}
use reaper.Store.Rows.{any, pending, pending_call, has_task, awaiting, keep}
use reaper.Store.Settle.{
  Outcome, Settlement, contains_id, settle_row, settled, removed, settlement, settle, wake_row,
  settle_all, settle_with, deleted, woken, is_woken,
}
use reaper.Store.Invariant.{blockers, IsCounted, IsLinked, IsConsistent}
use reaper.Store.Keeps.Settled.{
  pending-settle, pending_call-settle, pending_timer-settle, IsUnique-settle, pending_call-pending,
  graph_of-settle,
}

has_task-keep :
    (f : TaskRow → TaskRow) (gone : String → Bool) (ts : List TaskRow) (a : String)
    → ((t : TaskRow) → (f t).promise_id ≡ t.promise_id)
    → has_task (map f (keep (λ t. not (gone t.promise_id)) ts)) a ≡ (has_task ts a && not (gone a))
unfolding has_task
has_task-keep f gone [] a same = refl
has_task-keep f gone (t ∷ ts) a same = ground (
  arith,
  same t,
  has_task-keep f gone ts a same,
  string_eq.agrees t.promise_id a,
  string_eq.agrees (f t).promise_id a,
)

wake_row-promise_id : (now n : ℕ) (t : TaskRow) → (wake_row now n t).promise_id ≡ t.promise_id
unfolding wake_row
wake_row-promise_id now n t = ground arith

wake_row-pending_waits :
    (now n : ℕ) (t : TaskRow) → (wake_row now n t).pending_waits ≡ t.pending_waits - n
unfolding wake_row
wake_row-pending_waits now n t = ground arith

-- The waits that are kept of a waiter that stays.
pub awaiting-keep :
    (test gone : String → Bool) (ws : List WaitRow) (a : String)
    → gone a ≡ false
    → awaiting test (keep (λ w. not (gone w.waiter_id)) ws) a ≡ awaiting test ws a
unfolding awaiting
awaiting-keep test gone [] a h = refl
awaiting-keep test gone (w ∷ ws) a h =
    ground (arith, awaiting-keep test gone ws a h, string_eq.agrees w.waiter_id a)

-- The waits on pending promises are those that settle and those that stay.
blockers-settle :
    (e : Settlement) (ps : List PromiseRow) (ws : List WaitRow) (a : String)
    → blockers (map (settle_row e) ps) ws a + awaiting (settled e ps) ws a ≡ blockers ps ws a
unfolding awaiting
blockers-settle e ps [] a = refl
blockers-settle e ps (w ∷ ws) a =
    ground (arith, blockers-settle e ps ws a, pending-settle e ps w.awaited_id)

module _ (e : Settlement) (ps : List PromiseRow) (ws : List WaitRow) where
  abbrev stays : TaskRow → Bool
  stays t = not (removed e ps t.promise_id)

  IsCounted-wake_row :
      (t : TaskRow)
      → removed e ps t.promise_id ≡ false
      → IsCounted ps ws t
      → IsCounted
          (map (settle_row e) ps)
          (keep (λ w. not (removed e ps w.waiter_id)) ws)
          (wake_row e.now (awaiting (settled e ps) ws t.promise_id) t)
  IsCounted-wake_row t kept h =
      let n = awaiting (settled e ps) ws t.promise_id in
      rw
        (
          wake_row-promise_id e.now n t,
          wake_row-pending_waits e.now n t,
          awaiting-keep (pending (map (settle_row e) ps)) (removed e ps) ws t.promise_id kept,
        )
        (omega (arith, blockers-settle e ps ws t.promise_id, h))

  All-wake_row :
      (ts : List TaskRow)
      → All (IsCounted ps ws) ts
      → All
          (IsCounted (map (settle_row e) ps) (keep (λ w. not (removed e ps w.waiter_id)) ws))
          (map (λ t. wake_row e.now (awaiting (settled e ps) ws t.promise_id) t) (keep stays ts))
  All-wake_row [] h = tt
  All-wake_row (t ∷ ts) h = elim (Bool-cases (removed e ps t.promise_id)) [
    | inl gone ↦ rw gone (All-wake_row ts h.1)
    | inr kept ↦ rw kept (IsCounted-wake_row t kept h.0, All-wake_row ts h.1)
  ]

IsLinked-settle :
    (e : Settlement) (ps : List PromiseRow) (w : WaitRow)
    → IsLinked ps w
    → IsLinked (map (settle_row e) ps) w
IsLinked-settle e ps w h =
    (graph_of-settle e ps w.waiter_id ∙ h.0, graph_of-settle e ps w.awaited_id ∙ h.1)

pub All-keep {ℓ κ} :
    {A : Type ℓ} (P : A → Type κ) (test : A → Bool) (xs : List A) → All P xs → All P (keep test xs)
All-keep P test [] h = h
All-keep P test (x ∷ xs) h =
    if_elim (All P) (test x) _ _ (λ _. (h.0, All-keep P test xs h.1)) (λ _. All-keep P test xs h.1)

-- The timers of a settlement are no calls.
abbrev pub IsTimed : Settlement → List PromiseRow → Type 0
IsTimed e ps = (a : String) → pending_call ps a ≡ true → contains_id e.timers a ≡ false

-- No task ends by a settlement that also wakes it.
abbrev pub IsApart : Settlement → Store → Type 0
IsApart e s = (a : String) → removed e s.promises a ≡ true → woken e s a ≡ false

removed-IsConsistent :
    (e : Settlement) (s : Store)
    → IsTimed e s.promises
    → IsConsistent s
    → IsConsistent (settle_with (removed e s.promises) e s)
removed-IsConsistent e s timed c = record {
  counted = All-wake_row e s.promises s.waits s.tasks c.counted;
  owned = λ a.
      has_task-keep (λ t. wake_row e.now (awaiting (settled e s.promises) s.waits t.promise_id) t)
        (removed e s.promises) s.tasks a
        (λ t. wake_row-promise_id e.now (awaiting (settled e s.promises) s.waits t.promise_id) t)
      ∙ ground (
        arith,
        c.owned a,
        pending_call-settle e s.promises a,
        timed a,
        pending_call-pending s.promises a,
      );
  unique = IsUnique-settle e s.promises c.unique;
  one_kind = λ a. ground (
    arith,
    pending_call-settle e s.promises a,
    pending_timer-settle e s.promises a,
    c.one_kind a,
  );
  linked =
      All-map (IsLinked s.promises) (IsLinked (map (settle_row e) s.promises))
        (keep (λ w. not (removed e s.promises w.waiter_id)) s.waits) (IsLinked-settle e s.promises)
        (All-keep (IsLinked s.promises) _ s.waits c.linked);
}

pub settle_all-IsConsistent :
    (e : Settlement) (s : Store)
    → IsTimed e s.promises
    → IsApart e s
    → IsConsistent s
    → IsConsistent (settle_all e s)
unfolding settle_all
settle_all-IsConsistent e s timed apart c =
    subst (λ gone. IsConsistent (settle_with gone e s)) (λ i a. same a i)
      (removed-IsConsistent e s timed c)
  where
    same : (a : String) → removed e s.promises a ≡ deleted e s a
    same a = elim (Bool-cases (removed e s.promises a)) [
      | inl gone ↦ rw (gone, apart a gone) refl
      | inr kept ↦ rw kept refl
    ]

-- A task that nothing blocks is not woken.
unblocked-unwoken :
    (e : Settlement) (s : Store) (id : String) (ts : List TaskRow)
    → blockers s.promises s.waits id ≡ 0
    → All (IsCounted s.promises s.waits) ts
    → any
        (λ t.
          t.promise_id == id && is_woken (awaiting (settled e s.promises) s.waits t.promise_id) t)
        ts
      ≡ false
unblocked-unwoken e s id [] free h = refl
unblocked-unwoken e s id (t ∷ ts) free h = elim (Bool-cases (t.promise_id == id)) [
  | inr other ↦ rw other (unblocked-unwoken e s id ts free h.1)
  | inl same ↦
      let here : t.promise_id ≡ id = (string_eq.agrees t.promise_id id).0 same in
      let none : t.pending_waits ≡ 0 = h.0 ∙ ap (blockers s.promises s.waits) here ∙ free in
      ground (arith, none, unblocked-unwoken e s id ts free h.1)
]

pub settlement-IsApart :
    (now : ℕ) (id : String) (o : Outcome) (s : Store)
    → blockers s.promises s.waits id ≡ 0
    → IsConsistent s
    → IsApart (settlement now id o) s
settlement-IsApart now id o s free c a h =
    let same : id ≡ a = (string_eq.agrees id a).0 (ground (arith, h)) in
    subst (λ b. woken (settlement now id o) s b ≡ false) same
      (unblocked-unwoken (settlement now id o) s id s.tasks free c.counted)

pub settle-IsConsistent :
    (now : ℕ) (id : String) (o : Outcome) (s : Store)
    → blockers s.promises s.waits id ≡ 0
    → IsConsistent s
    → IsConsistent (settle now id o s)
unfolding settle
settle-IsConsistent now id o s free c =
    if_elim IsConsistent (has_task s.tasks id) _ _
      (λ _.
        settle_all-IsConsistent (settlement now id o) s (λ a h. refl)
          (settlement-IsApart now id o s free c) c)
      (λ _. c)
