-- ===== src/Durable/Compose.antt =====
-- join, fanout and mapreduce of Durable in reaper/promise.py. The function that makes the last call from
-- the values is a parameter, as is what reading a promise's result gives: its length, and whether it is
-- of the type.
use reaper.Base.{ℕ, Bool, Option, none, some, List, [], ◌∷◌, map}
use reaper.Durable.Context.{Stored, Context, Fault, no_promise, result}
use reaper.Durable.Calls.{
  Call, Called, promised, raised, Gathered, gathered, failed, invoke_all, gather,
}

-- What a read of a promise's result finds: its length, and whether it is of the type.
abbrev pub Reads : Type 0
Reads = Stored → ℕ × Bool

-- [promise.result() for promise in promises]: the fault that it raises, if it does.
abbrev pub results : Reads → List Stored → Option Fault
results read [] = none
results read (p ∷ ps) = elim (result p (read p).0 (read p).1) [
  | none ↦ results read ps
  | some f ↦ some f
]

-- The promise of a gather of one call.
abbrev pub sole : Gathered → Called
sole (failed f) = raised f
sole (gathered []) = raised no_promise
sole (gathered (p ∷ ps)) = promised p

-- The call that is made from the values, once the inputs have settled.
abbrev pub reduced : Reads → (List Stored → Call) → Context → Gathered → Called
reduced read task c (failed f) = raised f
reduced read task c (gathered ps) = elim (results read ps) [
  | none ↦ sole (gather (task ps ∷ []) c)
  | some f ↦ raised f
]

unfoldable pub join : Reads → (List Stored → Call) → List Call → Context → Called
unfolding gather
join read task calls c = reduced read task (invoke_all calls c).last_context (gather calls c)

unfoldable pub fanout {ℓ} : {A : Type ℓ} → (A → Call) → List A → Context → Gathered
unfolding gather
fanout task values c = gather (map task values) c

unfoldable pub mapreduce {ℓ} :
    {A : Type ℓ} → Reads → (A → Call) → (List Stored → Call) → List A → Context → Called
unfolding fanout
mapreduce read mapper reducer values c =
    reduced read reducer (invoke_all (map mapper values) c).last_context (fanout mapper values c)
