-- ===== src/Durable/Execute.antt =====
-- DurableFunction.execute, DurableCall.result and Durable.sleep of reaper/promise.py. What the function's
-- body does within its time, the reads of the store, and the lengths of encoded results are inputs.
use reaper.Base.{
  ℕ, ◌≡◌, refl, String, Bool, true, false, not, Option, none, some, List, [], ◌∷◌, ◌++◌, All,
  if◌then◌else◌, ◌==◌, string_eq, ltb,
}
use reaper.Skeleton.Types.{ResultState}
use reaper.Store.Types.{PromiseState}
use reaper.Durable.Context.{
  Stored, stored_id, stored_state, Context, Fault, too_many_children, submission_failed, wrong_id,
  bad_poll_rate, bad_delay, no_reader, not_resolved, suspended, next_id, find, save, result,
}
use reaper.Durable.Calls.{max_promise_bytes, is_waiting}

-- How one run of the body ends: a value with the length of its encoding, or an exception.
pub data Body : Type 0 where
  returns : ℕ → String → Body
  times_out cancelled : Body
  asks_retry faults : String → Body
  awaits : List String → Body

pub record Result : Type 0 where
  pub state : ResultState
  pub value : Option String
  pub error : Option String
  pub awaited : List String

-- The result for settle_execution; none when the cancellation is raised again.
unfoldable pub execute : Body → Option Result
execute times_out = some (record {
  state = ResultState.retry;
  value = none;
  error = some "local task run timed out";
  awaited = [];
})
execute cancelled = none
execute (asks_retry error) =
    some (record { state = ResultState.retry; value = none; error = some error; awaited = [] })
execute (awaits ids) =
    some (record { state = ResultState.suspended; value = none; error = none; awaited = ids })
execute (faults error) =
    some (record { state = ResultState.rejected; value = none; error = some error; awaited = [] })
execute (returns size value) =
    if ltb max_promise_bytes size
    then some (record {
      state = ResultState.rejected;
      value = none;
      error = some "promise result is too large";
      awaited = [];
    })
    else some
        (record { state = ResultState.resolved; value = some value; error = none; awaited = [] })

-- What a call's result gives: its promise's value, a fault, or nothing while the promise waits.
pub data Given : Type 0 where
  value_of : Stored → Given
  raises : Fault → Given
  polls : Given

abbrev pub finish : (Stored → ℕ × Bool) → Stored → Given
finish decode p = elim (result p (decode p).0 (decode p).1) [
  | none ↦ value_of p
  | some f ↦ raises f
]

-- The loop outside a task: one read after each sleep, none when read_promise raises.
unfoldable pub poll : (Stored → ℕ × Bool) → Bool → List (Option Stored) → Stored → Given
poll decode has_reader [] p =
    if not (is_waiting p) then finish decode p else if has_reader then polls else raises no_reader
poll decode has_reader (none ∷ reads) p =
    if not (is_waiting p)
    then finish decode p
    else if has_reader
    then raises submission_failed
    else raises no_reader
poll decode has_reader (some q ∷ reads) p =
    let rest = poll decode has_reader reads q in
    if not (is_waiting p) then finish decode p else if has_reader then rest else raises no_reader

-- DurableCall.result, after the promise that submit gives.
unfoldable pub call_result :
    Bool → Bool → (Stored → ℕ × Bool) → Bool → List (Option Stored) → Stored → Given
unfolding poll
call_result good_rate in_task decode has_reader reads p =
    if not good_rate
    then raises bad_poll_rate
    else if in_task
    then (if is_waiting p then raises (suspended (stored_id p ∷ [])) else finish decode p)
    else poll decode has_reader reads p

-- A delay in seconds: not a number, zero or less, or more.
pub data Delay : Type 0 where
  nan none_left some_left : Delay

-- What sleep gives: that it is over, or a fault.
pub data Slept : Type 0 where
  over : Slept
  woken : Fault → Slept

abbrev pub end_sleep : String → PromiseState → Slept
end_sleep id PromiseState.resolved = over
end_sleep id s = woken (not_resolved id s)

-- The id is asserted before the promise is saved.
abbrev pub end_timer : String → Stored → Context → Slept × Context
end_timer id p c = if not (stored_id p == id) then (woken wrong_id, c) else (
  if is_waiting p then woken (suspended (id ∷ [])) else end_sleep id (stored_state p),
  save p c,
)

-- The timer of a task: the one of its memo, or what the submission gives.
abbrev pub timer_of : Option Stored → Option Stored → Option Stored
timer_of (some p) answer = some p
timer_of none answer = answer

abbrev pub with_timer : Option Stored → Option String → Context → Slept × Context
with_timer answer none c = (woken too_many_children, c)
with_timer answer (some id) c = elim (timer_of (find c id) answer) [
  | none ↦ (woken submission_failed, c)
  | some p ↦ end_timer id p c
]

-- sleep inside a task
unfoldable pub sleep : Delay → Option Stored → Context → Slept × Context
unfolding next_id find save
sleep nan answer c = (woken bad_delay, c)
sleep none_left answer c = (over, c)
sleep some_left answer c =
    with_timer answer (next_id "durable.sleep" c).0 (next_id "durable.sleep" c).1

-- Reads that succeed.
abbrev pub found : List Stored → List (Option Stored)
found [] = []
found (p ∷ ps) = some p ∷ found ps

poll-here :
    (decode : Stored → ℕ × Bool) (reads : List (Option Stored)) (q : Stored)
    → is_waiting q ≡ false
    → poll decode true reads q ≡ finish decode q
unfolding poll
poll-here decode [] q e = rw e refl
poll-here decode (none ∷ reads) q e = rw e refl
poll-here decode (some r ∷ reads) q e = rw e refl

-- While the reads find the promise waiting the loop goes on, and the first read that finds it settled
-- ends it with that promise's value or fault.
pub poll-settled :
    (decode : Stored → ℕ × Bool) (reads : List Stored) (p q : Stored) (later : List (Option Stored))
    → is_waiting p ≡ true
    → All (λ r. is_waiting r ≡ true) reads
    → is_waiting q ≡ false
    → poll decode true (found reads ++ some q ∷ later) p ≡ finish decode q
unfolding poll
poll-settled decode [] p q later w h e = rw w (poll-here decode later q e)
poll-settled decode (r ∷ reads) p q later w h e =
    rw w (poll-settled decode reads r q later h.0 h.1 e)
