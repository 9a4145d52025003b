-- ===== src/Store/Status/Working.antt =====
-- Submissions and what ends an execution, by the status of each promise.
use reaper.Base.{
  ◌≡◌, refl, sym, ap, String, true, false, none, List, [], ◌∷◌, ◌++◌, if_elim, string_eq, arith,
  ◌∙◌, Bool-cases, inl, inr, subst,
}
use reaper.Store.Types.{PromiseRow, TaskRow, Store, is_pending}
use reaper.Store.Rows.{known, find_promise}
use reaper.Store.Submit.{
  Request, call_row, timer_row, submit_one, submit_calls, insert_timer, submit_timer,
}
use reaper.Store.Events.{Work, submits, times, work, work_all}
use reaper.Store.Status.{absent, Moves, stays_so, status, status_of, find_promise-append}

pub known-find : (ps : List PromiseRow) (a : String) → known ps a ≡ false → find_promise ps a ≡ none
unfolding known find_promise
known-find [] a h = refl
known-find (p ∷ ps) a h = ground (arith, known-find ps a)

find-known :
    (ps : List PromiseRow) (p : PromiseRow) (a : String)
    → known ps a ≡ true
    → find_promise (ps ++ p ∷ []) a ≡ find_promise ps a
unfolding known find_promise
find-known [] p a h = ground arith
find-known (q ∷ ps) p a h = ground (arith, find-known ps p a)

known-more :
    (ps : List PromiseRow) (p : PromiseRow) (a : String)
    → known ps a ≡ true
    → known (ps ++ p ∷ []) a ≡ true
unfolding known
known-more [] p a h = ground arith
known-more (q ∷ ps) p a h = ground (arith, known-more ps p a)

-- What is there stays as it is, and what is not there is absent or new.
pub record Grows (s s' : Store) : Type 0 where
  pub old :
      (a : String)
      → known s.promises a ≡ true
      → find_promise s'.promises a ≡ find_promise s.promises a
  pub still : (a : String) → known s.promises a ≡ true → known s'.promises a ≡ true
  pub new : (a : String) → Moves absent (status s a) → Moves absent (status s' a)

Grows-none : (s : Store) → Grows s s
Grows-none s = record { old = λ a h. refl; still = λ a h. h; new = λ a m. m }

Grows-then : (s t u : Store) → Grows s t → Grows t u → Grows s u
Grows-then s t u f g = record {
  old = λ a h. g.old a (f.still a h) ∙ f.old a h;
  still = λ a h. g.still a (f.still a h);
  new = λ a m. g.new a (f.new a m);
}

Grows-append :
    (s : Store) (p : PromiseRow) (ts : List TaskRow)
    → known s.promises p.id ≡ false
    → is_pending p.state ≡ true
    → Grows s (record s { promises = s.promises ++ p ∷ []; tasks = ts })
Grows-append s p ts new h = record {
  old = λ a k. find-known s.promises p a k;
  still = λ a k. known-more s.promises p a k;
  new = λ a m. elim (Bool-cases (known s.promises a)) [
    | inl k ↦ subst (λ o. Moves absent (status_of o)) (sym (find-known s.promises p a k)) m
    | inr k ↦
        subst (λ o. Moves (status_of o) (status_of (find_promise (s.promises ++ p ∷ []) a)))
          (known-find s.promises a k) (find_promise-append s.promises p a new h)
  ];
}

Grows-submit_one : (r : Request) (s : Store) → Grows s (submit_one r s)
unfolding submit_one
Grows-submit_one r s =
    if_elim (Grows s) (known s.promises r.id) _ _ (λ _. Grows-none s)
      (λ new. Grows-append s (call_row r) _ new refl)

pub Grows-submit_calls : (rs : List Request) (s : Store) → Grows s (submit_calls rs s)
unfolding submit_calls
Grows-submit_calls [] s = Grows-none s
Grows-submit_calls (r ∷ rs) s =
    Grows-then s (submit_one r s) (submit_calls rs (submit_one r s)) (Grows-submit_one r s)
      (Grows-submit_calls rs (submit_one r s))

pub Grows-work : (w : Work) (s : Store) → Grows s (work w s)
unfolding work submit_timer insert_timer
Grows-work (submits rs) s = Grows-submit_calls rs s
Grows-work (times t) s =
    if_elim (Grows s) (known s.promises t.id) _ _ (λ _. Grows-none s)
      (λ new. Grows-append s (timer_row t) s.tasks new refl)

pub Grows-work_all : (ws : List Work) (s : Store) → Grows s (work_all ws s)
unfolding work_all
Grows-work_all [] s = Grows-none s
Grows-work_all (w ∷ ws) s =
    Grows-then s (work w s) (work_all ws (work w s)) (Grows-work w s) (Grows-work_all ws (work w s))

pub Grows-Moves : (s s' : Store) (a : String) → Grows s s' → Moves (status s a) (status s' a)
Grows-Moves s s' a g = elim (Bool-cases (known s.promises a)) [
  | inl k ↦ subst (λ o. Moves (status s a) (status_of o)) (sym (g.old a k)) stays_so
  | inr k ↦
      let e : status s a ≡ absent = ap status_of (known-find s.promises a k) in
      subst (λ x. Moves x (status s' a)) (sym e) (g.new a (subst (Moves absent) (sym e) stays_so))
]
