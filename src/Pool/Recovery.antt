-- ===== src/Pool/Recovery.antt =====
-- schedule_recovery of SkeletonPool in reaper/pool.py. Delays are milliseconds:
-- 0.05 and 1.0 seconds are 50 and 1000.
use reaper.Base.{
  ℕ, suc, zero, ◌-◌, ◌*◌, ◌^◌, ◌≤◌, ◌<◌, min, ◌≡◌, Bool, true, false, Option, some, if◌then◌else◌,
  ◌⊎◌, leb, arith,
}
use native.Mathlib.Nat.{pow-suc}

abbrev pub recovery_base_delay : ℕ
recovery_base_delay = 50

abbrev pub recovery_max_delay : ℕ
recovery_max_delay = 1000

abbrev pub max_pre_ready_failures : ℕ
max_pre_ready_failures = 5

-- The recovery task: none, or one that sleeps for a delay, or one that is done.
pub data RecoveryTask : Type 0 where
  absent done : RecoveryTask
  sleeping : ℕ → RecoveryTask

pub record Recovery : Type 0 where
  pub closing : Bool
  pub pre_ready_failures : ℕ
  pub startup_error : Option ℕ
  pub recovery_task : RecoveryTask

abbrev pub is_sleeping : RecoveryTask → Bool
is_sleeping (sleeping d) = true
is_sleeping t = false

-- `max(0, failures - 1)` is truncated subtraction.
unfoldable pub delay_after : ℕ → ℕ
delay_after failures = min (recovery_base_delay * 2 ^ (failures - 1)) recovery_max_delay

-- The end of `schedule_recovery`: one sleeping task at a time.
unfoldable pub arm : Recovery → Recovery
unfolding delay_after
arm r =
    if is_sleeping r.recovery_task
    then r
    else record r { recovery_task = sleeping (delay_after r.pre_ready_failures) }

-- The pre-ready branch: count the failure, and open the circuit at the fifth.
unfoldable pub count_failure : Recovery → Recovery
unfolding arm
count_failure r =
    let failures = suc r.pre_ready_failures in
    if leb max_pre_ready_failures failures
    then record r {
      pre_ready_failures = failures;
      startup_error = some failures;
      recovery_task = absent;
    }
    else arm (record r { pre_ready_failures = failures })

unfoldable pub schedule_recovery : Recovery → Bool → Recovery
unfolding count_failure
schedule_recovery r pre_ready =
    if r.closing then r else if pre_ready then count_failure r else arm r

-- A READY message.
unfoldable pub became_ready : Recovery → Recovery
became_ready r = record r { pre_ready_failures = 0 }

pow_pos : (k : ℕ) → 1 ≤ 2 ^ k
pow_pos zero = omega arith
pow_pos (suc k) = rw pow-suc (omega (arith, pow_pos k))

minus_one : (n : ℕ) → suc n - 1 ≡ n
minus_one n = omega arith

-- The delay lies between the base and the maximum. From the second failure on, one more failure
-- doubles it, up to the maximum.
pub delay_after_bounds :
    (n : ℕ)
    → (recovery_base_delay ≤ delay_after n)
      × (delay_after n ≤ recovery_max_delay)
      × (delay_after (suc (suc n)) ≡ min (2 * delay_after (suc n)) recovery_max_delay)
unfolding delay_after
delay_after_bounds n = (
  omega (arith, pow_pos (n - 1)),
  omega arith,
  rw (minus_one (suc n), minus_one n, pow-suc) (omega arith),
)

-- The fifth failure in a row before READY opens the recovery circuit of an open pool: the error says
-- how many failures there were, and no recovery task is left.
pub schedule_recovery-circuit :
    (r : Recovery)
    → r.closing ≡ false
    → max_pre_ready_failures ≤ suc r.pre_ready_failures
    → ((schedule_recovery r true).recovery_task ≡ absent)
      × ((schedule_recovery r true).startup_error ≡ some (suc r.pre_ready_failures))
unfolding schedule_recovery
schedule_recovery-circuit r open_ h = (ground arith, ground arith)

-- In every other case of an open pool one recovery task sleeps afterwards: the one that slept
-- before, or a new one with the delay for the failures counted so far. No error is set.
pub schedule_recovery-sleeps :
    (r : Recovery) (pre_ready : Bool)
    → r.closing ≡ false
    → (pre_ready ≡ false) ⊎ (suc r.pre_ready_failures < max_pre_ready_failures)
    → ((schedule_recovery r pre_ready).recovery_task ≡ (
        if is_sleeping r.recovery_task
        then r.recovery_task
        else sleeping (delay_after (schedule_recovery r pre_ready).pre_ready_failures)))
      × ((schedule_recovery r pre_ready).startup_error ≡ r.startup_error)
unfolding schedule_recovery
schedule_recovery-sleeps r pre_ready open_ h = (ground arith, ground arith)
