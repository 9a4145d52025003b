-- ===== src/Store/Ready.antt =====
-- Which task a claim takes, what it knows of the promises awaited, and who is told that a task is ready.
use reaper.Base.{
  ℕ, ◌≡◌, ◌≢◌, refl, sym, String, Bool, true, false, some, List, [], ◌∷◌, map, All, All-map,
  if_elim, ◌==◌, string_eq, nat_eq, arith, ◌∙◌, Bool-cases, Option-cases, inl, inr, subst,
}
use mathlib.Core.Option.{some-injective}
use reaper.Store.Types.{PromiseRow, TaskRow, WaitRow, Store, is_pending}
use reaper.Store.Rows.{any, keep, known, pending, awaiting, find_promise}
use reaper.Store.Order.{All-sort_by}
use reaper.Store.Settle.{Settlement, settled, wakes, wake_row, notified, contains_id}
use reaper.Store.Submit.{Request, call_row, submit_one, submit_calls}
use reaper.Store.Claim.{
  FunctionVersion, WaitedPromise, ClaimedTask, waited, claim, claimed_task, claim_task,
}
use reaper.Store.Invariant.{blockers, IsConsistent}
use reaper.Store.Keeps.Graphs.{All-any}
use reaper.Store.Keeps.Submitting.{any-append}
use reaper.Store.Keeps.Running.{claim-free}
use reaper.Store.Status.Working.{Grows-submit_calls}

find-settled :
    (ps : List PromiseRow) (a : String) (p : PromiseRow)
    → pending ps a ≡ false
    → find_promise ps a ≡ some p
    → is_pending p.state ≡ false
unfolding pending find_promise
find-settled [] a p h e = cc
find-settled (q ∷ ps) a p h e = elim (Bool-cases (q.id == a)) [
  | inl same ↦
      subst (λ r. is_pending r.state ≡ false) (some-injective q p (sym (rw same refl) ∙ e))
        (ground (arith, h, same))
  | inr other ↦ find-settled ps a p (ground (arith, h, other)) (sym (rw other refl) ∙ e)
]

-- A task that nothing blocks awaits settled promises only.
abbrev pub IsSettled : WaitedPromise → Type 0
IsSettled w = is_pending w.state ≡ false

waited-IsSettled :
    (ps : List PromiseRow) (a : String) (ws : List WaitRow)
    → blockers ps ws a ≡ 0
    → All IsSettled (waited ps a ws)
unfolding waited awaiting
waited-IsSettled ps a [] h = tt
waited-IsSettled ps a (w ∷ ws) h =
    let rest = waited-IsSettled ps a ws (omega (arith, h)) in
    elim (Bool-cases (w.waiter_id == a)) [
      | inr other ↦ rw other rest
      | inl own ↦ rw own (elim (Option-cases (find_promise ps w.awaited_id)) [
        | inl e ↦ rw e rest
        | inr (p, e) ↦ rw e (find-settled ps w.awaited_id p (ground (arith, h, own)) e, rest)
      ])
    ]

keep-All {ℓ κ} :
    {A : Type ℓ} (P : A → Type κ) (test : A → Bool) (xs : List A)
    → All P (keep test xs)
    → All (λ x. test x ≡ true → P x) xs
keep-All P test [] h = tt
keep-All P test (x ∷ xs) h = elim (Bool-cases (test x)) [
  | inl e ↦ let h' = rw e at h in (λ _. h'.0, keep-All P test xs h'.1)
  | inr e ↦ (λ k. absurd (cc), keep-All P test xs (rw e at h))
]

module _ (precedes : String → String → Bool) where
  -- On a consistent store, whatever the topic and the locks, the promises that a claimed task awaits
  -- have all settled.
  pub claim_task-IsSettled :
      (now : ℕ) (topic : String) (excluded : List FunctionVersion) (locked : String → Bool)
      (s : Store) (c : ClaimedTask)
      → IsConsistent s
      → claim_task precedes now topic excluded locked s ≡ some c
      → All IsSettled c.waits
  unfolding claim_task
  claim_task-IsSettled now topic excluded locked s c k e =
      elim (Option-cases (claim precedes now topic excluded locked s)) [
        | inl n ↦ let e' = rw (claim_task, n) at e in absurd (cc)
        | inr (t, f) ↦
            subst (λ d. All IsSettled d.waits)
              (some-injective (claimed_task precedes s t) c (sym (rw (claim_task, f) refl) ∙ e))
              (All-sort_by (λ v w. precedes v.id w.id) IsSettled
                (waited s.promises t.promise_id s.waits)
                (waited-IsSettled s.promises t.promise_id s.waits
                  (claim-free precedes now topic excluded locked s t k f)))
      ]

contains_id-topics :
    (ts : List TaskRow) (a : String)
    → contains_id (map (λ u. u.topic) ts) a ≡ any (λ u. u.topic == a) ts
contains_id-topics [] a = refl
contains_id-topics (t ∷ ts) a = ground (arith, contains_id-topics ts a)

contains_id-keep :
    (test : TaskRow → Bool) (ts : List TaskRow)
    → All (λ t. test t ≡ true → contains_id (map (λ u. u.topic) (keep test ts)) t.topic ≡ true) ts
contains_id-keep test ts =
    let told = keep test ts in
    keep-All (λ t. contains_id (map (λ u. u.topic) told) t.topic ≡ true) test ts
      (All-map (λ t. (found : TaskRow → Bool) → found t ≡ true → any found told ≡ true)
        (λ t. contains_id (map (λ u. u.topic) told) t.topic ≡ true) told
        (λ t f.
          contains_id-topics told t.topic
          ∙ f (λ u. u.topic == t.topic) (ground (arith, string_eq.agrees t.topic t.topic)))
        (All-any told))

-- The count of a task after a settlement.
abbrev pub waits_after : Settlement → Store → TaskRow → ℕ
waits_after e s t =
    (wake_row e.now (awaiting (settled e s.promises) s.waits t.promise_id) t).pending_waits

-- Whatever settles, every task that waited and waits no longer has its topic told.
pub notified-ready :
    (e : Settlement) (s : Store)
    → All
        (λ t.
          t.pending_waits ≢ 0 → waits_after e s t ≡ 0 → contains_id (notified e s) t.topic ≡ true)
        s.tasks
unfolding notified wake_row
notified-ready e s =
    let count = awaiting (settled e s.promises) s.waits in
    All-map (λ t. wakes (count t.promise_id) t ≡ true → contains_id (notified e s) t.topic ≡ true)
      (λ t. t.pending_waits ≢ 0 → waits_after e s t ≡ 0 → contains_id (notified e s) t.topic ≡ true)
      s.tasks (λ t told waited ready. told (woken (count t.promise_id) e.now t waited ready))
      (contains_id-keep (λ t. wakes (count t.promise_id) t) s.tasks)
  where
    woken :
        (n now : ℕ) (t : TaskRow)
        → t.pending_waits ≢ 0
        → (wake_row now n t).pending_waits ≡ 0
        → wakes n t ≡ true
    woken n now t waited ready = ground (arith, waited, ready)

-- Calls that are submitted again change nothing.
submit_calls-same :
    (rs : List Request) (s : Store)
    → All (λ r. known s.promises r.id ≡ true) rs
    → submit_calls rs s ≡ s
unfolding submit_calls submit_one
submit_calls-same [] s h = refl
submit_calls-same (r ∷ rs) s h = rw (h.0) (submit_calls-same rs s h.1)

known-submit_one : (r : Request) (s : Store) → known (submit_one r s).promises r.id ≡ true
unfolding submit_one known
known-submit_one r s =
    if_elim (λ (t : Store). known t.promises r.id ≡ true) (known s.promises r.id) _ _ (λ h. h)
      (λ _.
        any-append (λ p. p.id == r.id) s.promises (call_row r ∷ [])
        ∙ ground (arith, string_eq.agrees r.id r.id))

known-submit_calls :
    (rs : List Request) (s : Store) → All (λ r. known (submit_calls rs s).promises r.id ≡ true) rs
unfolding submit_calls
known-submit_calls [] s = tt
known-submit_calls (r ∷ rs) s = (
  (Grows-submit_calls rs (submit_one r s)).still r.id (known-submit_one r s),
  known-submit_calls rs (submit_one r s),
)

-- Calls that are submitted twice, as after a crash of the client, are submitted once.
pub submit_calls-twice :
    (rs : List Request) (s : Store) → submit_calls rs (submit_calls rs s) ≡ submit_calls rs s
submit_calls-twice rs s = submit_calls-same rs (submit_calls rs s) (known-submit_calls rs s)
