-- ===== src/Tasks/Claim.antt =====
-- TaskClaim of reaper/tasks/__init__.py: `async with` over one claim. What the driver, the claim and the
-- block do is the input.
use reaper.Base.{ℕ, ◌≡◌, Bool, true, false, not, ◌&&◌, List, [], ◌∷◌, if◌then◌else◌, one, arith}
use reaper.Tasks.Connection.{
  Call, Trace, Finish, release_connection, finish_transaction, releases, acquires, commits,
  finish_transaction-Finished,
}

-- Whether the calls of `__aenter__` succeed; what `claim_task` finds; how the connection is given back
-- when the entry fails or finds nothing.
pub data Found : Type 0 where
  raises nothing task : Found

pub record Entry : Type 0 where
  pub acquires : Bool
  pub makes_transaction : Bool
  pub starts : Bool
  pub found : Found
  pub finish : Finish

-- The block: whether it ends without an exception, whether the execution has an outcome by then; then
-- whether `cancel_submissions`, shielded, returns, and how the connection is given back.
pub record Exit : Type 0 where
  pub returns : Bool
  pub finished : Bool
  pub cancels : Bool
  pub finish : Finish

-- `close_connection`
abbrev pub close_connection : Finish → Bool → Trace
close_connection = finish_transaction

-- The exception of a failed cleanup replaces none of the block's own, so `__aexit__` returns or raises
-- as the block does, or raises for the cleanup.
unfoldable pub aexit : Exit → Trace
aexit e =
    if e.cancels
    then (
      (close_connection e.finish (e.returns && e.finished)).0,
      e.returns && (close_connection e.finish (e.returns && e.finished)).1,
    )
    else ([], false)

-- The entry from the transaction's start on.
unfoldable pub claimed : Entry → Exit → Trace
unfolding aexit
claimed e x = elim e.found [
  | raises ↦ (Call.claim ∷ (close_connection e.finish false).0, false)
  | nothing ↦
      (Call.claim ∷ (close_connection e.finish false).0, (close_connection e.finish false).1)
  | task ↦ (Call.claim ∷ (aexit x).0, (aexit x).1)
]

unfoldable pub started : Entry → Exit → Trace
unfolding claimed
started e x =
    if e.starts
    then (Call.start ∷ (claimed e x).0, (claimed e x).1)
    else (Call.start ∷ (close_connection e.finish false).0, false)

-- `async with TaskClaim(pool, params)`: the entry, and the exit when it gives a task.
unfoldable pub use_claim : Entry → Exit → Trace
unfolding started release_connection
use_claim e x =
    if not e.acquires
    then ([], false)
    else if not e.makes_transaction
    then (Call.acquire ∷ Call.transaction ∷ (release_connection e.finish.release).0, false)
    else (Call.acquire ∷ Call.transaction ∷ (started e x).0, (started e x).1)

abbrev is_task : Found → Bool
is_task Found.task = true
is_task f = false

-- The claim reaches the block.
abbrev pub enters : Entry → Bool
enters e = e.acquires && e.makes_transaction && e.starts && is_task e.found

-- What the calls of a use come to: connections taken and given back, and commits.
abbrev pub Balanced : ℕ → ℕ → ℕ → List Call → Type 0
Balanced taken given committed calls =
    (acquires calls ≡ taken) × (releases calls ≡ given) × (commits calls ≡ committed)

aexit-Balanced :
    (x : Exit) → Balanced 0 (one x.cancels) (one (x.cancels && x.returns && x.finished)) (aexit x).0
unfolding aexit
aexit-Balanced x = ground (arith, finish_transaction-Finished x.finish (x.returns && x.finished))

-- A claim gives every connection that it takes back exactly once, on every path but one, and commits
-- only a block that returns with an outcome: on the path where leaving the block cannot cancel its
-- submissions the connection is neither given back nor committed.
pub use_claim-Balanced :
    (e : Entry) (x : Exit)
    → Balanced
        (one e.acquires)
        (if enters e then one x.cancels else one e.acquires)
        (one (enters e && x.cancels && x.returns && x.finished))
        (use_claim e x).0
unfolding use_claim started claimed release_connection
use_claim-Balanced e x =
    ground (arith, aexit-Balanced x, finish_transaction-Finished e.finish false)
