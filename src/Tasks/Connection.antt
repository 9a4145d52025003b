-- ===== src/Tasks/Connection.antt =====
-- release_connection and finish_transaction of reaper/database/__init__.py. The driver's calls are the
-- input: whether each succeeds.
use reaper.Base.{ℕ, suc, ◌≡◌, Bool, true, ◌&&◌, List, [], ◌∷◌, ◌++◌, if◌then◌else◌, one, arith}

-- The calls on a pool, a connection and its transaction.
pub data Call : Type 0 where
  acquire transaction start claim commit rollback terminate release : Call

-- The calls of a routine, and whether it returns.
abbrev pub Trace : Type 0
Trace = List Call × Bool

-- Whether the connection is closed already, and whether `terminate` and `release` succeed.
pub record Release : Type 0 where
  pub closed : Bool
  pub terminates : Bool
  pub releases : Bool

unfoldable pub release_connection : Release → Trace
release_connection r =
    if r.closed
    then (Call.terminate ∷ Call.release ∷ [], r.terminates && r.releases)
    else (Call.release ∷ [], r.releases)

-- Whether COMMIT or ROLLBACK succeeds, and what `is_in_transaction` says (false when it raises).
pub record Finish : Type 0 where
  pub commits : Bool
  pub in_transaction : Bool
  pub rolls_back : Bool
  pub release : Release

unfoldable pub end_transaction : Finish → Bool → Trace
end_transaction f committing =
    if committing
    then (Call.commit ∷ [], f.commits)
    else if f.in_transaction
    then (Call.rollback ∷ [], f.rolls_back)
    else ([], true)

-- The release follows whether or not the transaction could be ended.
unfoldable pub finish_transaction : Finish → Bool → Trace
unfolding end_transaction release_connection
finish_transaction f committing =
    let (calls, ended) = end_transaction f committing in
    let (released, ok) = release_connection f.release in (calls ++ released, ended && ok)

abbrev pub releases : List Call → ℕ
releases [] = 0
releases (Call.release ∷ calls) = suc (releases calls)
releases (c ∷ calls) = releases calls

abbrev pub acquires : List Call → ℕ
acquires [] = 0
acquires (Call.acquire ∷ calls) = suc (acquires calls)
acquires (c ∷ calls) = acquires calls

abbrev pub commits : List Call → ℕ
commits [] = 0
commits (Call.commit ∷ calls) = suc (commits calls)
commits (c ∷ calls) = commits calls

-- One release, no acquisition, and one COMMIT if asked for.
abbrev pub Finished : Bool → List Call → Type 0
Finished committing calls =
    (releases calls ≡ 1) × (acquires calls ≡ 0) × (commits calls ≡ one committing)

pub finish_transaction-Finished :
    (f : Finish) (committing : Bool) → Finished committing (finish_transaction f committing).0
unfolding finish_transaction end_transaction release_connection
finish_transaction-Finished f committing = ground arith
