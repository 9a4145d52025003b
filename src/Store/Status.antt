-- ===== src/Store/Status.antt =====
-- What a client of the store sees of a promise: it is absent, waiting, or closed for good with an outcome.
use reaper.Base.{
  ℕ, ◌≡◌, refl, sym, ap, String, Bool, true, false, not, ◌&&◌, ◌||◌, Option, none, some, List, [],
  ◌∷◌, ◌++◌, map, All, if◌then◌else◌, if_elim, ◌==◌, string_eq, arith, ◌∙◌, Bool-cases,
  Option-cases, inl, inr, subst,
}
use reaper.Store.Types.{
  PromiseState, PromiseRow, TaskRow, WaitRow, Store, is_pending, is_some, graph_id,
}
use reaper.Store.Rows.{any, keep, known, pending, find_promise}
use reaper.Store.Settle.{
  Settlement, settlement, Outcome, resolved, rejected, timed_out, write, settle_row, contains_id,
  hits,
}
use reaper.Store.Invariant.{IsUnique}
use reaper.Store.Keeps.Settled.{settle_row-id}
use reaper.Store.Keeps.Graphs.{IsQuiet, stays, quiet-goes, graph_of-keep}
pub mod Working
pub mod Ending
pub mod Refines

-- The state, the result, the error and the time of a promise that has settled.
pub record Closing : Type 0 where
  pub state : PromiseState
  pub result : Option String
  pub error : Option String
  pub settled_at : Option ℕ

pub data Status : Type 0 where
  absent waiting : Status
  closed : Closing → Status

abbrev pub closing : PromiseRow → Closing
closing p = record {
  state = p.state;
  result = p.result;
  error = p.error;
  settled_at = p.settled_at;
}

abbrev pub row_status : PromiseRow → Status
row_status p = if is_pending p.state then waiting else closed (closing p)

abbrev pub status_of : Option PromiseRow → Status
status_of none = absent
status_of (some p) = row_status p

abbrev pub status : Store → String → Status
status s a = status_of (find_promise s.promises a)

-- One transaction creates a promise, closes it, deletes it when it is closed, or leaves it.
pub data Moves : Status → Status → Type 0 where
  stays_so : {x : Status} → Moves x x
  opens : Moves absent waiting
  closes : {o : Closing} → Moves waiting (closed o)
  leaves : {o : Closing} → Moves (closed o) absent

pending-waiting : (p : PromiseRow) → is_pending p.state ≡ true → row_status p ≡ waiting
pending-waiting p h = rw h refl

pub settled-closed :
    (p : PromiseRow) → is_pending p.state ≡ false → row_status p ≡ closed (closing p)
settled-closed p h = rw h refl

find_promise-append :
    (ps : List PromiseRow) (p : PromiseRow) (a : String)
    → known ps p.id ≡ false
    → is_pending p.state ≡ true
    → Moves (status_of (find_promise ps a)) (status_of (find_promise (ps ++ p ∷ []) a))
unfolding find_promise known
find_promise-append [] p a new h =
    if_elim (λ o. Moves absent (status_of o)) (p.id == a) _ _
      (λ _. subst (Moves absent) (sym (pending-waiting p h)) opens) (λ _. stays_so)
find_promise-append (q ∷ ps) p a new h = elim (Bool-cases (q.id == a)) [
  | inl e ↦ rw e stays_so
  | inr e ↦ rw e (find_promise-append ps p a (ground (arith, new)) h)
]

write-Moves : (now : ℕ) (o : Outcome) (p : PromiseRow) → Moves waiting (row_status (write now o p))
write-Moves now (resolved result) p = closes
write-Moves now (rejected error) p = closes
write-Moves now (timed_out error) p = closes

-- A settlement closes what it hits and what waits, and nothing else.
settle_row-Moves :
    (e : Settlement) (p : PromiseRow) → Moves (row_status p) (row_status (settle_row e p))
unfolding settle_row
settle_row-Moves e p = elim (Bool-cases (is_pending p.state)) [
  | inr settled ↦
      rw settled (subst (Moves (closed (closing p))) (sym (settled-closed p settled)) stays_so)
  | inl waits ↦ rw waits (
      if_elim (λ r. Moves waiting (row_status r)) (contains_id e.timers p.id) _ _
        (λ _. write-Moves e.now (resolved (some "null")) p)
        (λ _.
          if_elim (λ r. Moves waiting (row_status r)) (contains_id e.calls p.id) _ _
            (λ _. write-Moves e.now e.outcome p)
            (λ _. subst (Moves waiting) (sym (pending-waiting p waits)) stays_so)))
]

find_promise-settle :
    (e : Settlement) (ps : List PromiseRow) (a : String)
    → Moves (status_of (find_promise ps a)) (status_of (find_promise (map (settle_row e) ps) a))
unfolding find_promise
find_promise-settle e [] a = stays_so
find_promise-settle e (p ∷ ps) a = elim (Bool-cases (p.id == a)) [
  | inl same ↦ rw (settle_row-id e p, same) (settle_row-Moves e p)
  | inr other ↦ rw (settle_row-id e p, other) (find_promise-settle e ps a)
]

-- Another id is not touched.
settle-other :
    (now : ℕ) (id : String) (o : Outcome) (ps : List PromiseRow) (a : String)
    → (id == a) ≡ false
    → find_promise (map (settle_row (settlement now id o)) ps) a ≡ find_promise ps a
unfolding find_promise settle_row
settle-other now id o [] a h = refl
settle-other now id o (p ∷ ps) a h = ground (
  arith,
  settle-other now id o ps a h,
  string_eq.agrees p.id a,
  string_eq.agrees id p.id,
  settle_row-id (settlement now id o) p,
)
