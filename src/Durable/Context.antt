-- ===== src/Durable/Context.antt =====
-- Context and Promise of reaper/promise.py.
use reaper.Base.{
  ℕ, zero, suc, ◌/◌, ◌%◌, ◌^◌, String, Bool, Option, none, some, List, [], ◌∷◌, map, if◌then◌else◌,
  ◌==◌, string_eq, nat_eq, ltb,
}
use reaper.Base.Dict.{Dict, get, put}
use reaper.Store.Types.{PromiseState, PromiseRow}
use reaper.Store.Claim.{WaitedPromise, ClaimedTask}
use Prim.Native.String.{◌++◌ as concat}

-- PromiseRecord | WaitedPromise
pub data Stored : Type 0 where
  recorded : PromiseRow → Stored
  waited : WaitedPromise → Stored

abbrev pub stored_id : Stored → String
stored_id (recorded p) = p.id
stored_id (waited p) = p.id

abbrev pub stored_state : Stored → PromiseState
stored_state (recorded p) = p.state
stored_state (waited p) = p.state

-- `ms or 2**63`
abbrev pub or_last : Option ℕ → ℕ
or_last none = 2 ^ 63
or_last (some zero) = 2 ^ 63
or_last (some (suc ms)) = suc ms

abbrev pub settled_order : Stored → ℕ
settled_order (waited p) = or_last p.settled_at_ms
settled_order (recorded p) = elim p.settled_at [ none ↦ 2 ^ 63 | some ms ↦ ms ]

-- A task's data; `executes` when there is an execution that children can be submitted to.
pub record Context : Type 0 where
  pub task_id : String
  pub memo : Dict String Stored
  pub call_index : ℕ
  pub depth : ℕ
  pub executes : Bool

abbrev pub max_child_promises : ℕ
max_child_promises = 1024

-- str of a number
abbrev digit : ℕ → String
digit n =
    if n == 0
    then "0"
    else if n == 1
    then "1"
    else if n == 2
    then "2"
    else if n == 3
    then "3"
    else if n == 4
    then "4"
    else if n == 5
    then "5"
    else if n == 6
    then "6"
    else if n == 7
    then "7"
    else if n == 8
    then "8"
    else "9"

abbrev digits : ℕ → ℕ → String
digits zero n = digit n
digits (suc fuel) n =
    let front = digits fuel (n / 10) in if ltb n 10 then digit n else concat front (digit (n % 10))

abbrev pub decimal : ℕ → String
decimal n = digits n n

abbrev pub child_id : String → ℕ → String → String
child_id task_id index func = concat task_id (concat ":" (concat (decimal index) (concat ":" func)))

-- What a call raises.
pub data Fault : Type 0 where
  input_too_large too_deep no_store too_many_children no_execution : Fault
  submission_failed wrong_id no_promise no_reader bad_poll_rate bad_delay : Fault
  not_resolved : String → PromiseState → Fault
  result_too_large invalid_result : String → Fault
  suspended : List String → Fault

-- The id, and whether there is one more child to have; the index is counted in any case.
unfoldable pub next_id : String → Context → Option String × Context
next_id func c =
    let index = suc c.call_index in
    (
      if ltb max_child_promises index then none else some (child_id c.task_id index func),
      record c { call_index = index },
    )

unfoldable pub find : Context → String → Option Stored
find c id = get c.memo id

unfoldable pub save : Stored → Context → Context
save p c = record c { memo = put c.memo (stored_id p) p }

-- model_post_init
unfoldable pub preloaded : List Stored → Dict String Stored → Dict String Stored
preloaded [] memo = memo
preloaded (p ∷ ps) memo = preloaded ps (put memo (stored_id p) p)

-- The context that run_claimed_task of reaper/worker.py makes.
abbrev pub claimed_context : ClaimedTask → Context
claimed_context c = record {
  task_id = c.id;
  memo = preloaded (map waited c.waits) [];
  call_index = 0;
  depth = c.depth;
  executes = Bool.true;
}

-- Promise.result: `size` is the length of the encoded result, and `valid` what its type says of it.
unfoldable pub result : Stored → ℕ → Bool → Option Fault
result p size valid =
    if is_resolved (stored_state p)
    then (if ltb 1048576 size
        then some (result_too_large (stored_id p))
        else if valid
        then none
        else some (invalid_result (stored_id p)))
    else some (not_resolved (stored_id p) (stored_state p))
  where
    is_resolved : PromiseState → Bool
    is_resolved PromiseState.resolved = Bool.true
    is_resolved s = Bool.false
