-- ===== src/Settings.antt =====
-- reaper/settings.py, and SkeletonPool.from_settings of reaper/pool.py. Rates are milliseconds. The
-- fields that only name a database or a log level are left out, and digits are those of ASCII.
use Prim.Native.Char.{Char, code}
use Prim.Native.String
use reaper.Base.{
  ℕ, zero, suc, ◌+◌, ◌*◌, ◌-◌, String, Bool, true, false, not, ◌&&◌, ◌||◌, Option, none, some, List,
  [], ◌∷◌, if◌then◌else◌, ◌==◌, nat_eq, string_eq, leb, ltb, length,
}
mod Flags
mod Tests

pub data PoolKind : Type 0 where
  task maintenance : PoolKind

pub record PoolConfig : Type 0 where
  pub kind : PoolKind
  pub skeletons : ℕ
  pub topic : Option String

-- value.split(":")
abbrev pub prepend : Char → List String → List String
prepend c [] = String.◌∷◌ c "" ∷ []
prepend c (part ∷ parts) = String.◌∷◌ c part ∷ parts

unfoldable pub split : String → List String
split String.[] = "" ∷ []
split (String.◌∷◌ c s) =
    let parts = split s in if code c == b':' then "" ∷ parts else prepend c parts

abbrev pub is_digit : ℕ → Bool
is_digit c = leb b'0' c && leb c b'9'

unfoldable pub all_digits : String → Bool
all_digits String.[] = true
all_digits (String.◌∷◌ c s) = is_digit (code c) && all_digits s

-- count.isdigit()
abbrev pub isdigit : String → Bool
isdigit s = not (s == "") && all_digits s

-- int(count), after the digits read so far.
unfoldable pub int_from : ℕ → String → ℕ
int_from n String.[] = n
int_from n (String.◌∷◌ c s) = int_from (n * 10 + (code c - b'0')) s

abbrev pub int : String → ℕ
int s = int_from 0 s

abbrev pub task_pool : ℕ → Option String → PoolConfig
task_pool count topic = record { kind = PoolKind.task; skeletons = count; topic = topic }

abbrev pub maintenance_pool : ℕ → PoolConfig
maintenance_pool count = record { kind = PoolKind.maintenance; skeletons = count; topic = none }

-- `match parts`; `none` is the ValueError.
unfoldable pub match_parts : List String → Option PoolConfig
match_parts [] = none
match_parts (count ∷ []) = if isdigit count then some (task_pool (int count) none) else none
match_parts (name ∷ count ∷ []) =
    if name == "maintenance" && isdigit count
    then some (maintenance_pool (int count))
    else if not (name == "") && isdigit count
    then some (task_pool (int count) (some name))
    else none
match_parts (name ∷ count ∷ more ∷ parts) = none

unfoldable pub parse_flag : String → Option PoolConfig
unfolding split match_parts all_digits int_from
parse_flag value = match_parts (split value)

unfoldable pub text_length : String → ℕ
text_length String.[] = 0
text_length (String.◌∷◌ c s) = suc (text_length s)

-- The bounds of a pool's fields, and `validate_topic`.
unfoldable pub valid_pool : PoolConfig → Bool
unfolding text_length
valid_pool config = ltb 0 config.skeletons && leb config.skeletons 64 && elim config.topic [
  | none ↦ true
  | some topic ↦
      leb 1 (text_length topic)
      && leb (text_length topic) 255
      && elim config.kind [ PoolKind.task ↦ true | PoolKind.maintenance ↦ false ]
]

pub record ReaperSettings : Type 0 where
  pub beat_rate : ℕ
  pub poll_rate : ℕ
  pub maintenance_rate : ℕ
  pub listener_probe_rate : ℕ
  pub listener_recycle_rate : ℕ
  pub gc_rate : ℕ
  pub retention_ms : ℕ
  pub startup_timeout : ℕ
  pub service_failure_rounds : ℕ
  pub service_retry_base : ℕ
  pub service_retry_max : ℕ
  pub max_queued_jobs : ℕ
  pub pools : List PoolConfig

abbrev pub all_valid : List PoolConfig → Bool
all_valid [] = true
all_valid (config ∷ pools) = valid_pool config && all_valid pools

-- Field(gt=0, le=most)
abbrev pub within : ℕ → ℕ → Bool
within n most = ltb 0 n && leb n most

-- The bounds of the fields.
unfoldable pub valid_fields : ReaperSettings → Bool
unfolding valid_pool
valid_fields s =
    ltb 0 s.beat_rate
    && within s.poll_rate 3600000
    && ltb 0 s.maintenance_rate
    && within s.listener_probe_rate 300000
    && within s.listener_recycle_rate 3600000
    && within s.gc_rate 86400000
    && (leb 60000 s.retention_ms && leb s.retention_ms 31536000000)
    && within s.startup_timeout 300000
    && within s.service_failure_rounds 10
    && within s.service_retry_base 30000
    && within s.service_retry_max 300000
    && within s.max_queued_jobs 100000
    && all_valid s.pools

abbrev pub skeletons : List PoolConfig → ℕ
skeletons [] = 0
skeletons (config ∷ pools) = config.skeletons + skeletons pools

unfoldable pub bound_horde : ReaperSettings → Bool
bound_horde s =
    leb (length s.pools) 32
    && leb (skeletons s.pools) 256
    && leb s.service_retry_base s.service_retry_max
    && leb s.listener_probe_rate s.listener_recycle_rate

-- ReaperSettings(...): `none` is the ValidationError.
unfoldable pub load : ReaperSettings → Option ReaperSettings
unfolding valid_fields bound_horde
load s = if valid_fields s && bound_horde s then some s else none
