-- ===== src/Pool/Family.antt =====
-- from_settings and start of SkeletonPool in reaper/pool.py: the root pool and its child pools.
use reaper.Base.{
  ℕ, suc, ◌+◌, ◌≤◌, ◌≡◌, refl, ap, String, Bool, true, false, Option, none, some, List, [], ◌∷◌,
  if◌then◌else◌, arith, ◌&&◌, Bool-cases, inl, inr, nat_eq, ◌==◌, beq_refl, All,
}
use reaper.Settings.{
  PoolKind, PoolConfig, ReaperSettings, valid_pool, all_valid, skeletons, valid_fields, bound_horde,
  load,
}
use reaper.Pool.Slots.{SkeletonPool}
use reaper.Pool.Lives.{new_pool}

pub data SkeletonRole : Type 0 where
  general task maintenance : SkeletonRole

-- A pool as `from_settings` makes it. The failure event and its errors are shared objects, known by the
-- place of the pool that made them.
pub record Member : Type 0 where
  pub pool : SkeletonPool
  pub role : SkeletonRole
  pub topic : String
  pub startup_timeout : ℕ
  pub failure : ℕ

abbrev pub role_of : PoolKind → SkeletonRole
role_of PoolKind.task = SkeletonRole.task
role_of PoolKind.maintenance = SkeletonRole.maintenance

unfoldable pub member : ReaperSettings → ℕ → PoolConfig → Member
member settings place config = record {
  pool = new_pool config.skeletons settings.service_failure_rounds settings.max_queued_jobs;
  role = role_of config.kind;
  topic = elim config.topic [ none ↦ "default" | some topic ↦ topic ];
  startup_timeout = settings.startup_timeout;
  failure = place;
}

-- The loop over `settings.pools`.
unfoldable pub members : ReaperSettings → ℕ → List PoolConfig → List Member
unfolding member
members settings place [] = []
members settings place (config ∷ pools) =
    member settings place config ∷ members settings (suc place) pools

abbrev pub share : ℕ → List Member → List Member
share failure [] = []
share failure (m ∷ ms) = record m { failure = failure } ∷ share failure ms

abbrev pub family : List Member → Option (Member × List Member)
family [] = none
family (root ∷ made) = some (root, share root.failure made)

-- `none` is the ValueError of settings with no pool.
unfoldable pub from_settings : ReaperSettings → Option (Member × List Member)
unfolding members
from_settings settings = family (members settings 0 settings.pools)

-- What `start` asks of a child pool.
pub data Act : Type 0 where
  starts closes : ℕ → Act

abbrev pub close_all : List ℕ → List Act
close_all [] = []
close_all (pool ∷ pools) = closes pool ∷ close_all pools

-- The loop of `start` over the child pools, which are known by their places: `started_children` newest
-- first, and whether each pool starts. A close that raises adds a note to the error, and the next pool is
-- closed. The answer is what was asked, and whether all have started; the error is raised otherwise.
unfoldable pub start_children : (ℕ → Bool) → List ℕ → List ℕ → List Act × Bool
start_children works [] started_children = ([], true)
start_children works (pool ∷ pools) started_children =
    let (acts, all_started) = start_children works pools (pool ∷ started_children) in
    if works pool
    then (starts pool ∷ acts, all_started)
    else (starts pool ∷ close_all started_children, false)

-- What the acts lead to: the pools that run, newest first, and those whose close raised. `closes_well`
-- says which closes return. A close of any but the newest is refused.
abbrev pub running : (ℕ → Bool) → (ℕ → Bool) → List Act → List ℕ → List ℕ → Option (List ℕ × List ℕ)
running works closes_well [] up stuck = some (up, stuck)
running works closes_well (starts pool ∷ acts) up stuck =
    running works closes_well acts (if works pool then pool ∷ up else up) stuck
running works closes_well (closes pool ∷ acts) [] stuck = none
running works closes_well (closes pool ∷ acts) (newest ∷ up) stuck =
    if newest == pool
    then running works closes_well acts up (if closes_well pool then stuck else pool ∷ stuck)
    else none

-- The pools whose close raises, the last of them first.
abbrev pub unclosed : (ℕ → Bool) → List ℕ → List ℕ → List ℕ
unclosed closes_well [] stuck = stuck
unclosed closes_well (pool ∷ pools) stuck =
    unclosed closes_well pools (if closes_well pool then stuck else pool ∷ stuck)

running-close_all :
    (works closes_well : ℕ → Bool) (up stuck : List ℕ)
    → running works closes_well (close_all up) up stuck ≡ some ([], unclosed closes_well up stuck)
running-close_all works closes_well [] stuck = refl
running-close_all works closes_well (pool ∷ up) stuck =
    rw (beq_refl pool)
      (running-close_all works closes_well up (if closes_well pool then stuck else pool ∷ stuck))

-- The newest first.
abbrev pub onto : List ℕ → List ℕ → List ℕ
onto [] up = up
onto (pool ∷ pools) up = onto pools (pool ∷ up)

-- Every one of the pools starts.
abbrev pub all_work : (ℕ → Bool) → List ℕ → Bool
all_work works [] = true
all_work works (pool ∷ pools) = works pool && all_work works pools

-- The pools up to the first that does not start, newest first.
abbrev pub up_to_failure : (ℕ → Bool) → List ℕ → List ℕ → List ℕ
up_to_failure works [] up = up
up_to_failure works (pool ∷ pools) up =
    if works pool then up_to_failure works pools (pool ∷ up) else up

-- What is to come of the child pools.
abbrev pub Outcome : Type 0
Outcome = Option (List ℕ × List ℕ)

abbrev pub expected : (ℕ → Bool) → (ℕ → Bool) → List ℕ → List ℕ → Outcome
expected works closes_well pools up =
    if all_work works pools
    then some (onto pools up, [])
    else some ([], unclosed closes_well (up_to_failure works pools up) [])

-- The child pools have started exactly when the start of every one of them works. All of them then run
-- and none has been closed. Otherwise those before the first that fails have been closed, the newest
-- first, also when the close of some of them raises: none runs but those whose own close raised.
pub start_children-running :
    (works closes_well : ℕ → Bool) (pools up : List ℕ)
    → (running works closes_well (start_children works pools up).0 up []
        ≡ expected works closes_well pools up)
      × ((start_children works pools up).1 ≡ all_work works pools)
unfolding start_children
start_children-running works closes_well [] up = (refl, refl)
start_children-running works closes_well (pool ∷ pools) up =
    let (runs, all) = start_children-running works closes_well pools (pool ∷ up) in
    elim (Bool-cases (works pool)) [
      | inl e ↦ (rw e (rw (e, running) runs), rw e all)
      | inr e ↦ (rw e (rw (e, running) (running-close_all works closes_well up [])), rw e refl)
    ]

-- The failure event of a child pool is the root's.
share-failure : (failure : ℕ) (ms : List Member) → All (λ m. m.failure ≡ failure) (share failure ms)
share-failure failure [] = tt
share-failure failure (m ∷ ms) = (refl, share-failure failure ms)

abbrev pub targets : List Member → ℕ
targets [] = 0
targets (m ∷ ms) = m.pool.core.target + targets ms

-- A pool that has slots and no more than a pool may have.
abbrev pub IsSized : Member → Type 0
IsSized m = (1 ≤ m.pool.core.target) × (m.pool.core.target ≤ 64)

targets-members :
    (s : ReaperSettings) (place : ℕ) (pools : List PoolConfig)
    → targets (members s place pools) ≡ skeletons pools
unfolding members
targets-members s place [] = refl
targets-members s place (config ∷ pools) =
    ap (◌+◌ config.skeletons) (targets-members s (suc place) pools)

members-IsSized :
    (s : ReaperSettings) (place : ℕ) (pools : List PoolConfig)
    → all_valid pools ≡ true
    → All IsSized (members s place pools)
unfolding members valid_pool
members-IsSized s place [] h = tt
members-IsSized s place (config ∷ pools) h =
    ((ground arith, ground arith), members-IsSized s (suc place) pools (ground arith))

-- Every pool that loaded settings declare has between 1 and 64 slots, and together they have at most 256.
pub members-fit :
    (s t : ReaperSettings)
    → load s ≡ some t
    → All IsSized (members s 0 s.pools) × (targets (members s 0 s.pools) ≤ 256)
unfolding load valid_fields bound_horde
members-fit s t loaded =
    (members-IsSized s 0 s.pools (ground arith), ground (arith, targets-members s 0 s.pools))
