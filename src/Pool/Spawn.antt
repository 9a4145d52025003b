-- ===== src/Pool/Spawn.antt =====
-- spawn_effect of SkeletonPool in reaper/pool.py: the descriptors that one spawn opens, and what is
-- closed again when a call of it fails. The calls' results are a parameter.
use reaper.Base.{ℕ, zero, suc, ◌-◌, ◌≡◌, Bool, true, false, if◌then◌else◌, ◌==◌, nat_eq, ltb}

abbrev pub max_child_config : ℕ
max_child_config = 8192

-- What the calls of one spawn give: whether each succeeds, the size of the configuration, how much of
-- `n` bytes `os.write` takes, the parent socket's descriptor and the process.
pub record System : Type 0 where
  pub socket_pair : Bool
  pub death_pipe : Bool
  pub config_pipe : Bool
  pub dup_control : Bool
  pub dup_death : Bool
  pub dup_config : Bool
  pub open_beat : Bool
  pub write_marker : Bool
  pub dup_beat : Bool
  pub config_size : ℕ
  pub write_config : ℕ → ℕ
  pub posix_spawn : Bool
  pub fd : ℕ
  pub pid : ℕ

-- Which of the spawn's descriptors are open.
pub record Held : Type 0 where
  pub parent_sock : Bool
  pub child_sock : Bool
  pub death_reader : Bool
  pub death_writer : Bool
  pub config_reader : Bool
  pub config_writer : Bool
  pub control_source : Bool
  pub death_source : Bool
  pub config_source : Bool
  pub beat_fd : Bool
  pub beat_source : Bool

abbrev pub none_held : Held
none_held = record {
  parent_sock = false;
  child_sock = false;
  death_reader = false;
  death_writer = false;
  config_reader = false;
  config_writer = false;
  control_source = false;
  death_source = false;
  config_source = false;
  beat_fd = false;
  beat_source = false;
}

-- The body of the `try`, so far: it goes on, or it has raised.
pub data Attempt : Type 0 where
  going : Held → Attempt
  fault : Held → Attempt

infixl 5 ◌>>=◌
abbrev pub ◌>>=◌ : Attempt → (Held → Attempt) → Attempt
going h >>= f = f h
fault h >>= f = fault h

-- A call that leaves `after` when it succeeds.
abbrev pub call : Bool → Held → Held → Attempt
call succeeds after h = if succeeds then going after else fault h

-- `while config`: what is left after each write; a write that takes nothing is the BrokenPipeError.
-- The fuel is the number of bytes left.
unfoldable pub write_all : (ℕ → ℕ) → ℕ → ℕ → Bool
write_all write fuel zero = true
write_all write zero (suc left) = false
write_all write (suc fuel) (suc left) = elim (write (suc left) == 0) [
  | true ↦ false
  | false ↦ write_all write fuel (suc left - write (suc left))
]

-- The body of the `try`.
unfoldable pub acquire : System → Held → Attempt
unfolding write_all
acquire sys start =
    call sys.socket_pair (record start { parent_sock = true; child_sock = true }) start >>= λ h.
    call sys.death_pipe (record h { death_reader = true; death_writer = true }) h >>= λ h.
    call sys.config_pipe (record h { config_reader = true; config_writer = true }) h >>= λ h.
    call sys.dup_control (record h { control_source = true }) h >>= λ h.
    call sys.dup_death (record h { death_source = true }) h >>= λ h.
    call sys.dup_config (record h { config_source = true }) h >>= λ h.
    call sys.open_beat (record h { beat_fd = true }) h >>= λ h. call sys.write_marker h h >>= λ h.
    call sys.dup_beat (record h { beat_source = true }) h >>= λ h.
    call (write_all sys.write_config sys.config_size sys.config_size)
      (record h { config_writer = false }) h
    >>= λ h. call sys.posix_spawn h h

-- What every end closes.
abbrev pub finally : Held → Held
finally h = record h {
  control_source = false;
  death_source = false;
  config_source = false;
  beat_source = false;
  death_reader = false;
  config_reader = false;
  config_writer = false;
  child_sock = false;
}

-- What an end without a process closes besides.
abbrev pub given_up : Held → Held
given_up h = record h { parent_sock = false; death_writer = false; beat_fd = false }

-- The new slot's descriptor and process, the exception that is returned, or the ValueError that is
-- raised before anything is opened.
pub data Spawned : Type 0 where
  started : ℕ → ℕ → Held → Spawned
  failed : Held → Spawned
  too_large : Spawned

abbrev pub settle : System → Attempt → Spawned
settle sys (going h) = started sys.fd sys.pid (finally h)
settle sys (fault h) = failed (given_up (finally h))

unfoldable pub spawn_effect : System → Spawned
unfolding acquire
spawn_effect sys =
    if ltb max_child_config sys.config_size then too_large else settle sys (acquire sys none_held)

-- What a spawned slot owns.
abbrev pub slot_held : Held
slot_held = record none_held { parent_sock = true; death_writer = true; beat_fd = true }

-- Nothing stays open after a failure, and after a success just what the slot owns.
abbrev pub IsTidy : Spawned → Type 0
IsTidy (started fd pid h) = h ≡ slot_held
IsTidy (failed h) = h ≡ none_held
IsTidy too_large = Unit
