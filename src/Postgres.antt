-- ===== src/Postgres.antt =====
-- PostgresPool of reaper/postgres.py, which owns at most one pool of the driver. Whether the driver makes
-- a pool, and what its close gives, are inputs; the hooks of fault injection do nothing.
use reaper.Base.{
  ℕ, suc, ◌+◌, ◌≡◌, refl, sym, subst, Bool, true, false, List, [], ◌∷◌, if◌then◌else◌, arith, All,
  Bool-cases, inl, inr,
}

-- The driver's pools that were made, and those that were closed or terminated.
pub record PostgresPool : Type 0 where
  pub pool : Bool
  pub made : ℕ
  pub ended : ℕ

pub data Result : Type 0 where
  returned raised : PostgresPool → Result

-- What `pool.close()` gives under its timeout: it returns, it is cancelled, it raises one of the
-- exceptions that are caught, or another.
pub data Closing : Type 0 where
  closes cancelled lost broken : Closing

unfoldable pub connect : Bool → PostgresPool → Result
connect created p =
    if p.pool
    then returned p
    else if created
    then returned (record p { pool = true; made = suc p.made })
    else raised p

-- The driver's pool is closed or terminated.
abbrev pub ended_once : PostgresPool → PostgresPool
ended_once p = record p { ended = suc p.ended }

-- `close` once the pool has been forgotten.
abbrev pub close_pool : Closing → PostgresPool → Result
close_pool closes p = returned (ended_once p)
close_pool cancelled p = raised (ended_once p)
close_pool lost p = returned (ended_once p)
close_pool broken p = raised p

unfoldable pub close : Closing → PostgresPool → Result
close c p = if p.pool then close_pool c (record p { pool = false }) else returned p

-- Whether there is a pool to give; without one, RuntimeError.
unfoldable pub get_pool : PostgresPool → Bool
get_pool p = p.pool

abbrev pub left : Result → PostgresPool
left (returned p) = p
left (raised p) = p

pub data Use : Type 0 where
  connects : Bool → Use
  closing : Closing → Use

unfoldable pub use_pool : Use → PostgresPool → Result
unfolding connect close
use_pool (connects created) p = connect created p
use_pool (closing c) p = close c p

unfoldable pub run : List Use → PostgresPool → PostgresPool
unfolding use_pool
run [] p = p
run (u ∷ us) p = run us (left (use_pool u p))

-- One pool of the driver is there when it is open, and none otherwise.
abbrev pub IsSole : PostgresPool → Type 0
IsSole p = p.made ≡ p.ended + (if p.pool then 1 else 0)

-- A close that ends the driver's pool.
abbrev pub Ends : Use → Type 0
Ends (closing broken) = ⊥
Ends u = Unit

close_pool-ended :
    (c : Closing) (p : PostgresPool) → Ends (closing c) → left (close_pool c p) ≡ ended_once p
close_pool-ended closes p h = refl
close_pool-ended cancelled p h = refl
close_pool-ended lost p h = refl
close_pool-ended broken p h = absurd h

use_pool-IsSole : (u : Use) (p : PostgresPool) → Ends u → IsSole p → IsSole (left (use_pool u p))
unfolding use_pool connect close
use_pool-IsSole (connects created) p h b = elim (Bool-cases p.pool) [
  | inl open_ ↦ rw (open_, connect) (ground (arith, b, open_))
  | inr shut ↦ elim (Bool-cases created) [
    | inl made_one ↦ rw (shut, made_one, connect) (ground (arith, b, shut))
    | inr none_made ↦ rw (shut, none_made, connect) (ground (arith, b, shut))
  ]
]
use_pool-IsSole (closing c) p h b = elim (Bool-cases p.pool) [
  | inl open_ ↦
      rw (open_, close)
        (subst IsSole (sym (close_pool-ended c (record p { pool = false }) h))
          (ground (arith, b, open_)))
  | inr shut ↦ rw (shut, close) (ground (arith, b, shut))
]

-- Over any connects and closes, none of which ends in an exception that `close` does not handle, at most
-- one pool of the driver is open, the one that is kept, and all others have been closed or terminated.
pub run-IsSole : (us : List Use) (p : PostgresPool) → All Ends us → IsSole p → IsSole (run us p)
unfolding run
run-IsSole [] p h b = b
run-IsSole (u ∷ us) p h b = run-IsSole us (left (use_pool u p)) h.1 (use_pool-IsSole u p h.0 b)
