-- ===== src/Durable/Calls.antt =====
-- DurableFunction.invoke, and gather and first of Durable, in reaper/promise.py. What a submission gives,
-- or that it raises, is an input of each call.
use reaper.Base.{
  ℕ, suc, String, Bool, not, Option, none, some, List, [], ◌∷◌, ◌++◌, map, if◌then◌else◌, ◌==◌,
  string_eq, contains, ltb, leb,
}
use reaper.Store.Types.{is_pending}
use reaper.Store.Rows.{keep}
use reaper.Durable.Context.{
  Stored, stored_id, stored_state, settled_order, Context, next_id, find, save, Fault,
  input_too_large, too_deep, no_store, too_many_children, no_execution, submission_failed, wrong_id,
  no_promise, suspended,
}

-- A call: its function, the length of its encoded input, and what its submission gives.
pub record Call : Type 0 where
  pub name : String
  pub input_size : ℕ
  pub answer : Option Stored

pub data Called : Type 0 where
  promised : Stored → Called
  raised : Fault → Called

-- What a call gives, the context that it leaves, and the ids that it submits.
pub record Turn : Type 0 where
  pub called : Called
  pub context : Context
  pub sent : List String

abbrev pub max_promise_bytes : ℕ
max_promise_bytes = 1048576

abbrev pub max_promise_depth : ℕ
max_promise_depth = 256

-- The promise is saved before its id is asserted.
abbrev pub kept : String → Stored → Context → List String → Turn
kept id p c sent = record {
  called = if stored_id p == id then promised p else raised wrong_id;
  context = save p c;
  sent = sent;
}

abbrev pub answered : Option Stored → String → Context → Turn
answered none id c = record { called = raised submission_failed; context = c; sent = id ∷ [] }
answered (some p) id c = kept id p c (id ∷ [])

abbrev pub submit_child : Call → String → Context → Turn
submit_child call id c =
    if not c.executes
    then record { called = raised no_execution; context = c; sent = [] }
    else answered call.answer id c

-- Memo data before SQL.
abbrev pub recall : Call → String → Option Stored → Context → Turn
recall call id (some p) c = kept id p c []
recall call id none c = submit_child call id c

abbrev pub with_id : Call → Option String → Context → Turn
with_id call none c = record { called = raised too_many_children; context = c; sent = [] }
with_id call (some id) c = recall call id (find c id) c

-- `invoke` inside a task.
unfoldable pub invoke : Call → Context → Turn
unfolding next_id find save
invoke call c =
    if ltb max_promise_bytes call.input_size
    then record { called = raised input_too_large; context = c; sent = [] }
    else if ltb max_promise_depth (suc c.depth)
    then record { called = raised too_deep; context = c; sent = [] }
    else with_id call (next_id call.name c).0 (next_id call.name c).1

-- `invoke` outside a task, with a store or without one.
unfoldable pub invoke_root : Call → Bool → String → Called
invoke_root call has_store id =
    if ltb max_promise_bytes call.input_size
    then raised input_too_large
    else if not has_store
    then raised no_store
    else elim call.answer [
      | none ↦ raised submission_failed
      | some p ↦ if stored_id p == id then promised p else raised wrong_id
    ]

-- The calls of one task, in the order in which they take their ids.
pub record Turns : Type 0 where
  pub all_called : List Called
  pub last_context : Context
  pub all_sent : List String

unfoldable pub invoke_all : List Call → Context → Turns
unfolding invoke
invoke_all [] c = record { all_called = []; last_context = c; all_sent = [] }
invoke_all (call ∷ calls) c =
    let turn = invoke call c in
    let rest = invoke_all calls turn.context in
    record {
      all_called = turn.called ∷ rest.all_called;
      last_context = rest.last_context;
      all_sent = turn.sent ++ rest.all_sent;
    }

-- asyncio.gather: the promises of all, or the first fault.
pub data Gathered : Type 0 where
  gathered : List Stored → Gathered
  failed : Fault → Gathered

abbrev pub collect : List Called → Gathered
collect [] = gathered []
collect (raised f ∷ called) = failed f
collect (promised p ∷ called) = elim (collect called) [
  | gathered ps ↦ gathered (p ∷ ps)
  | failed f ↦ failed f
]

abbrev pub is_waiting : Stored → Bool
is_waiting p = is_pending (stored_state p)

-- tuple(dict.fromkeys(awaited))
abbrev pub from_keys : List String → List String → List String
from_keys seen [] = []
from_keys seen (id ∷ ids) =
    let rest = from_keys (id ∷ seen) ids in
    if contains seen id then from_keys seen ids else id ∷ rest

abbrev pub all_settled : List Stored → Gathered
all_settled ps = elim (map stored_id (keep is_waiting ps)) [
  | [] ↦ gathered ps
  | id ∷ ids ↦ failed (suspended (from_keys [] (id ∷ ids)))
]

abbrev pub then_settled : Gathered → Gathered
then_settled (failed f) = failed f
then_settled (gathered ps) = all_settled ps

unfoldable pub gather : List Call → Context → Gathered
unfolding invoke_all
gather calls c = then_settled (collect (invoke_all calls c).all_called)

-- The least settled_order, the first of those that have it.
abbrev pub earliest : Stored → List Stored → Stored
earliest p [] = p
earliest p (q ∷ qs) = earliest (if leb (settled_order p) (settled_order q) then p else q) qs

abbrev pub first_settled : List Stored → Called
first_settled ps = elim (keep (λ p. not (is_waiting p)) ps) [
  | [] ↦ raised (suspended (from_keys [] (map stored_id ps)))
  | p ∷ qs ↦ promised (earliest p qs)
]

abbrev pub then_first : Gathered → Called
then_first (failed f) = raised f
then_first (gathered ps) = first_settled ps

unfoldable pub first : List Call → Context → Called
unfolding invoke_all
first [] c = raised no_promise
first (call ∷ calls) c = then_first (collect (invoke_all (call ∷ calls) c).all_called)
