-- ===== src/Pool/Scenes.antt =====
-- The driver of SkeletonPool in reaper/pool.py on a concrete system, and its theorems there.
use reaper.Base.{
  ℕ, suc, ◌+◌, ◌≤◌, ◌<◌, ◌≡◌, refl, String, Bool, true, false, none, some, List, [], ◌∷◌, arith,
  count, nat_eq, string_eq, ◌==◌, subst, not, Bool-cases, inl, inr,
}
use reaper.Base.Dict.{Dict, get}
use reaper.Control.Types.{SkeletonId, EventKind, ReaperCore}
use reaper.Control.Core.{init, empty_core, jobs, submit, fill, dispatch, spawn_of}
use reaper.Pool.Futures.{Note}
use reaper.Pool.Futures.{answer_all}
use reaper.Pool.Spawn.{System, IsTidy, spawn_effect}
use reaper.Pool.Tidy.{spawn_effect-IsTidy}
use reaper.Pool.Slots.{Slot, SkeletonPool}
use reaper.Pool.Drive.{Host, drive}
use reaper.Pool.Operations.{ready, result, gone, job_event, plain_event}
use reaper.Pool.Teardown.{close}
use reaper.Control.Apply.{transition, handle}
use reaper.Control.Histories.{Reached, begin, next}
use mathlib.Core.Option.{some-injective}
use reaper.Pool.Carries.{IsServed, Start, Driving}
use reaper.Pool.Finishes.{Finishes}
use reaper.Pool.Synced.{Shows, drive-Shows}
use reaper.Pool.Serving.{IsServing, Stands}
use reaper.Pool.Family.{start_children, running, expected, all_work, start_children-running}
use reaper.Pool.Starting.{Wait, start}
use reaper.Pool.Begins.{asked_in, EndsWell, start-EndsWell}
use reaper.Pool.Lives.{Operation, new_pool, Shuts, close-Shuts}

-- A descriptor above all that are in use.
abbrev key_sum : Dict ℕ Slot → ℕ
key_sum [] = 0
key_sum ((k, s) ∷ d) = k + key_sum d

get-above : (d : Dict ℕ Slot) (k : ℕ) → key_sum d < k → get d k ≡ none
get-above [] k h = refl
get-above ((j, s) ∷ d) k h = ground (arith, get-above d k)

abbrev working : ℕ → ℕ → System
working fd pid = record {
  socket_pair = true;
  death_pipe = true;
  config_pipe = true;
  dup_control = true;
  dup_death = true;
  dup_config = true;
  open_beat = true;
  write_marker = true;
  dup_beat = true;
  config_size = 5;
  write_config = λ n. 2;
  posix_spawn = true;
  fd = fd;
  pid = pid;
}

abbrev host : Host
host = record {
  spawn = λ p gen. working (suc (key_sum p.slots)) (100 + gen);
  child_there = λ p pid. true;
  kill_fails = λ p pid. false;
  kill_raises = λ p pid. false;
}

host-IsServed : IsServed host
host-IsServed = record {
  fresh = λ p gen. get-above p.slots (suc (key_sum p.slots)) (omega arith);
  fits = λ p gen. omega arith;
  kills = λ p pid. refl;
}

abbrev child : SkeletonId
child = record { fd = 1; gen = 1 }

abbrev note : Note
note = record { value = some "7"; kind = none; text = none; trace = none }

-- A job is answered, and the child is lost with the next; another child takes the third.
abbrev scene : List Operation
scene =
    Operation.reads child (result "a" true note)
    ∷ Operation.submits "b"
    ∷ Operation.reads child gone
    ∷ Operation.recovers
    ∷ Operation.submits "c"
    ∷ []

-- While the pool of one starts, a job is submitted and the child becomes ready.
abbrev waits : List Wait
waits =
    record { late = false; operations = Operation.submits "a" ∷ Operation.reads child ready ∷ [] }
    ∷ record { late = true; operations = [] }
    ∷ []

one_job : (j : String) → count j (asked_in waits) ≤ 1
one_job j = ground arith

start-EndsWell_example :
    EndsWell 1
      (λ j. count j (asked_in waits))
      (start host ((child, gone) ∷ []) waits (new_pool 1 3 10))
start-EndsWell_example =
    start-EndsWell host host-IsServed 0 3 10 ((child, gone) ∷ []) waits (refl, tt) one_job

-- A pool of one that has a job and no child.
abbrev waiting_core : ReaperCore
waiting_core = record (empty_core 1) { queue = "a" ∷ [] }

abbrev waiting_pool : SkeletonPool
waiting_pool = record (new_pool 1 3 10) {
  core = waiting_core;
  futures = record { jobs = ("a", false) ∷ []; results = []; completed = [] };
  started = true;
}

submitted : Reached 1 (job_event "a" ∷ []) waiting_core []
unfolding transition handle submit dispatch init
submitted = next (job_event "a") (begin (empty_core 1) refl) (record {
  free = tt;
  named = λ job h. subst (λ x. (x == "") ≡ false) (some-injective "a" job h) refl;
  matched = tt;
})

waiting_pool-kept :
    (j : String)
    → ("" == j) ≡ false
    → Stands j (count j ("a" ∷ [])) waiting_pool.futures (count j (jobs waiting_core))
waiting_pool-kept j named = elim (Bool-cases ("a" == j)) [
  | inl same ↦
      subst (λ k. Stands k (count k ("a" ∷ [])) waiting_pool.futures (count k (jobs waiting_core)))
        ((string_eq.agrees "a" j).0 same)
        (inr (inl (omega arith, record { there = refl; sole = omega arith; never = refl }, refl)))
  | inr far ↦ inl (rw far refl, record { absent = rw far refl; never = refl }, rw far refl)
]

waiting_pool-IsServing : IsServing 1 ("a" ∷ []) false waiting_pool
waiting_pool-IsServing = record {
  events = job_event "a" ∷ [];
  effects = [];
  history = submitted;
  mirrored = record { keyed = tt; sole = λ k. omega arith; mirrors = λ i. omega arith };
  kept = waiting_pool-kept;
  shut = λ h. cc;
  stays = refl;
}

close-Shuts_example : Shuts "a" (close host ((child, gone) ∷ []) waiting_pool)
close-Shuts_example =
    close-Shuts host host-IsServed ((child, gone) ∷ []) ("a" ∷ []) waiting_pool
      waiting_pool-IsServing refl "a" refl (omega arith)

-- A pool of one after START.
abbrev starting_core : ReaperCore
starting_core = record (empty_core 1) { pending_spawns = 1 ∷ []; next_gen = 1 }

abbrev starting_pool : SkeletonPool
starting_pool = record (new_pool 1 3 10) { core = starting_core; started = true }

abbrev new_start : Start
new_start = record {
  target = 1;
  past = [];
  futures = starting_pool.futures;
  sent = [];
  owed = λ j. 0;
  closed = false;
}

start_history : Reached 1 (plain_event EventKind.start ∷ []) starting_core (spawn_of 1 ∷ [])
unfolding transition handle fill dispatch init
start_history =
    next (plain_event EventKind.start) (begin (empty_core 1) refl)
      (record { free = tt; named = tt; matched = tt })

starting_pool-Driving : Driving new_start (spawn_of 1 ∷ []) starting_pool
unfolding answer_all
starting_pool-Driving = record {
  events = plain_event EventKind.start ∷ [];
  done = [];
  history = start_history;
  owes = λ j. refl;
  futures = refl;
  sends = refl;
  mirrored = record { keyed = tt; sole = λ k. omega arith; mirrors = λ i. omega arith };
  shut = λ h. cc;
  stays = refl;
}

drive-Shows_example : Shows 1 (drive host 10 (spawn_of 1 ∷ []) starting_pool)
drive-Shows_example =
    drive-Shows host host-IsServed 10 1 (spawn_of 1 ∷ []) starting_pool starting_pool-Driving
      (omega arith)

spawn_effect-IsTidy_example : IsTidy (spawn_effect (record (working 4 9) { dup_config = false }))
spawn_effect-IsTidy_example = spawn_effect-IsTidy (record (working 4 9) { dup_config = false })

-- The second of three child pools fails to start, and the close of the first raises.
abbrev second_fails : ℕ → Bool
second_fails pool = not (pool == 2)

start_children-running_example :
    (running second_fails (λ pool. false) (start_children second_fails (1 ∷ 2 ∷ 3 ∷ []) []).0 [] []
      ≡ expected second_fails (λ pool. false) (1 ∷ 2 ∷ 3 ∷ []) [])
    × ((start_children second_fails (1 ∷ 2 ∷ 3 ∷ []) []).1 ≡ all_work second_fails (1 ∷ 2 ∷ 3 ∷ []))
start_children-running_example =
    start_children-running second_fails (λ pool. false) (1 ∷ 2 ∷ 3 ∷ []) []
