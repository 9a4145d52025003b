-- ===== src/Store/Keeps/Settled.antt =====
-- What a settlement makes of the rows of promises.
use reaper.Base.{◌≡◌, refl, String, true, not, ◌&&◌, List, [], ◌∷◌, map, string_eq, arith}
use reaper.Store.Types.{PromiseRow, is_pending}
use reaper.Store.Rows.{known, pending, pending_call, pending_timer, find_promise}
use reaper.Store.Settle.{Settlement, hits, settle_row}
use reaper.Store.Suspend.{graph_of}
use reaper.Store.Invariant.{IsUnique}

-- A settlement leaves every id and graph, and ends the rows that it hits.
pub settle_row-id : (e : Settlement) (p : PromiseRow) → (settle_row e p).id ≡ p.id
unfolding settle_row
settle_row-id e p = ground arith

pub settle_row-root_id : (e : Settlement) (p : PromiseRow) → (settle_row e p).root_id ≡ p.root_id
unfolding settle_row
settle_row-root_id e p = ground arith

pub settle_row-due_at : (e : Settlement) (p : PromiseRow) → (settle_row e p).due_at ≡ p.due_at
unfolding settle_row
settle_row-due_at e p = ground arith

pub settle_row-pending :
    (e : Settlement) (p : PromiseRow)
    → is_pending (settle_row e p).state ≡ (is_pending p.state && not (hits e p.id))
unfolding settle_row
settle_row-pending e p = ground arith

pub pending-settle :
    (e : Settlement) (ps : List PromiseRow) (a : String)
    → pending (map (settle_row e) ps) a ≡ (pending ps a && not (hits e a))
unfolding pending
pending-settle e [] a = refl
pending-settle e (p ∷ ps) a = ground (
  arith,
  settle_row-id e p,
  settle_row-pending e p,
  pending-settle e ps a,
  string_eq.agrees p.id a,
  string_eq.agrees (settle_row e p).id a,
)

pub pending_call-settle :
    (e : Settlement) (ps : List PromiseRow) (a : String)
    → pending_call (map (settle_row e) ps) a ≡ (pending_call ps a && not (hits e a))
unfolding pending_call
pending_call-settle e [] a = refl
pending_call-settle e (p ∷ ps) a = ground (
  arith,
  settle_row-id e p,
  settle_row-pending e p,
  settle_row-due_at e p,
  pending_call-settle e ps a,
  string_eq.agrees p.id a,
  string_eq.agrees (settle_row e p).id a,
)

pub pending_timer-settle :
    (e : Settlement) (ps : List PromiseRow) (a : String)
    → pending_timer (map (settle_row e) ps) a ≡ (pending_timer ps a && not (hits e a))
unfolding pending_timer
pending_timer-settle e [] a = refl
pending_timer-settle e (p ∷ ps) a = ground (
  arith,
  settle_row-id e p,
  settle_row-pending e p,
  settle_row-due_at e p,
  pending_timer-settle e ps a,
  string_eq.agrees p.id a,
  string_eq.agrees (settle_row e p).id a,
)

pub known-settle :
    (e : Settlement) (ps : List PromiseRow) (a : String)
    → known (map (settle_row e) ps) a ≡ known ps a
unfolding known
known-settle e [] a = refl
known-settle e (p ∷ ps) a = ground (arith, settle_row-id e p, known-settle e ps a)

pub IsUnique-settle :
    (e : Settlement) (ps : List PromiseRow) → IsUnique ps → IsUnique (map (settle_row e) ps)
IsUnique-settle e [] u = tt
IsUnique-settle e (p ∷ ps) u =
    (ground (arith, known-settle e ps p.id, settle_row-id e p, u.0), IsUnique-settle e ps u.1)

pub pending_call-pending :
    (ps : List PromiseRow) (a : String) → pending_call ps a ≡ true → pending ps a ≡ true
unfolding pending_call pending
pending_call-pending [] a h = h
pending_call-pending (p ∷ ps) a h = ground (arith, pending_call-pending ps a)

pub graph_of-settle :
    (e : Settlement) (ps : List PromiseRow) (a : String)
    → graph_of (map (settle_row e) ps) a ≡ graph_of ps a
unfolding find_promise
graph_of-settle e [] a = refl
graph_of-settle e (p ∷ ps) a = ground (
  arith,
  settle_row-id e p,
  settle_row-root_id e p,
  graph_of-settle e ps a,
  string_eq.agrees p.id a,
  string_eq.agrees (settle_row e p).id a,
)
