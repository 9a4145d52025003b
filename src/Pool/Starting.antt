-- ===== src/Pool/Starting.antt =====
-- start and finish_start of SkeletonPool in reaper/pool.py, for a pool with no child pools: the wait for
-- its children, and the close when it fails; submit, which starts a pool that has not started.
use reaper.Base.{
  ℕ, String, Bool, true, false, Option, none, some, List, [], ◌∷◌, nat_eq, string_eq, ◌==◌, ◌&&◌,
  ◌||◌, if◌then◌else◌, length,
}
use reaper.Base.Dict.{Dict}
use reaper.Control.Types.{SkeletonId, EventKind}
use reaper.Control.Core.{is_idle}
use reaper.Pool.Slots.{Slot, SkeletonPool}
use reaper.Pool.Drive.{Host, Driven, driven, raised, unfinished}
use reaper.Pool.Operations.{Submitted, refused, enqueue, Incoming, perform, plain_event}
use reaper.Pool.Teardown.{close}
use reaper.Pool.Lives.{Operation, operate_all}

-- One sleep of the wait: what the other tasks do meanwhile, after the check of the time.
pub record Wait : Type 0 where
  pub late : Bool
  pub operations : List Operation

abbrev pub all_idle : Dict ℕ Slot → Bool
all_idle [] = true
all_idle ((fd, slot) ∷ rest) = is_idle slot.state && all_idle rest

-- The negation of the loop's condition.
abbrev pub is_ready : SkeletonPool → Bool
is_ready p = length p.slots == p.core.target && all_idle p.slots

abbrev pub is_some {ℓ} : {A : Type ℓ} → Option A → Bool
is_some none = false
is_some (some a) = true

-- `self.startup_error is not None`, which the recovery and the fault circuit can both set.
abbrev pub has_error : SkeletonPool → Bool
has_error p = is_some p.recovery.startup_error || is_some p.circuit.startup_error

-- What `start` comes to: it returns, it is refused by the RuntimeError of a pool that closes, it has
-- raised after the close of the pool, or it still waits when the inputs end.
pub data Begun : Type 0 where
  begun waiting shut : SkeletonPool → Begun
  gave_up : Driven → Begun

-- An exception of another task does not reach the wait.
abbrev pub after : Driven → (SkeletonPool → Begun) → Begun
after (driven q) f = f q
after (raised q) f = f q
after (unfinished q es) f = gave_up (unfinished q es)

-- The loop of `finish_start`, with the close that `start` runs when it raises.
unfoldable pub await_ready : Host → List (SkeletonId × Incoming) → List Wait → SkeletonPool → Begun
unfolding close operate_all
await_ready host arrivals [] p =
    if is_ready p
    then begun p
    else if has_error p
    then gave_up (close host arrivals p)
    else waiting p
await_ready host arrivals (w ∷ waits) p =
    let rest = after (operate_all host w.operations p) (await_ready host arrivals waits) in
    if is_ready p
    then begun p
    else if has_error p || w.late
    then gave_up (close host arrivals p)
    else rest

-- An exception of the first drive.
abbrev pub after_drive :
    Host → List (SkeletonId × Incoming) → Driven → (SkeletonPool → Begun) → Begun
after_drive host arrivals (driven q) f = f q
after_drive host arrivals (raised q) f = gave_up (close host arrivals q)
after_drive host arrivals (unfinished q es) f = gave_up (unfinished q es)

-- The rest of `start`, from `self.started = True` on.
unfoldable pub start_up : Host → List (SkeletonId × Incoming) → List Wait → SkeletonPool → Begun
unfolding perform await_ready close
start_up host arrivals waits p =
    after_drive host arrivals
      (perform host (plain_event EventKind.start) (record p { started = true }))
      (await_ready host arrivals waits)

unfoldable pub start : Host → List (SkeletonId × Incoming) → List Wait → SkeletonPool → Begun
unfolding start_up
start host arrivals waits p =
    if p.recovery.closing
    then shut p
    else if p.started
    then begun p
    else start_up host arrivals waits p

-- What `submit` comes to: a submission, or the end of a start that does not return.
pub data Asked : Type 0 where
  submitted : Submitted → Asked
  not_started : Begun → Asked

abbrev pub after_start : Host → String → Begun → Asked
after_start host job (begun q) = submitted (enqueue host job q)
after_start host job b = not_started b

unfoldable pub submit :
    Host → List (SkeletonId × Incoming) → List Wait → String → SkeletonPool → Asked
unfolding start enqueue
submit host arrivals waits job p =
    if p.recovery.closing
    then submitted (refused p)
    else if p.started
    then submitted (enqueue host job p)
    else after_start host job (start host arrivals waits p)
