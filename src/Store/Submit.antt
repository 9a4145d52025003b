-- ===== src/Store/Submit.antt =====
-- reaper/tasks/queries/submit_calls.sql and reaper/promises/queries/submit_timer.sql.
use reaper.Base.{
  ℕ, ◌+◌, String, Option, none, some, List, [], ◌∷◌, ◌++◌, if◌then◌else◌, ◌==◌, string_eq,
}
use reaper.Store.Types.{PromiseState, PromiseRow, TaskRow, Store}
use reaper.Store.Rows.{known, find_promise}

-- A row of `requested`: SubmitCall with its fingerprint.
pub record Request : Type 0 where
  pub id : String
  pub idempotency_key : String
  pub root_id : Option String
  pub expires_at : ℕ
  pub retention_ms : ℕ
  pub function : String
  pub version : ℕ
  pub topic : String
  pub input : String
  pub depth : ℕ
  pub priority : ℕ
  pub available_at : ℕ
  pub max_failures : ℕ
  pub execution_timeout_ms : ℕ

-- CASE WHEN root_id IS NULL THEN end + retention END
abbrev pub delete_time : Option String → ℕ → ℕ → Option ℕ
delete_time none end retention_ms = some (end + retention_ms)
delete_time (some root) end retention_ms = none

abbrev pub call_row : Request → PromiseRow
call_row r = record {
  id = r.id;
  idempotency_key = r.idempotency_key;
  state = PromiseState.pending;
  root_id = r.root_id;
  result = none;
  error = none;
  due_at = none;
  expires_at = some r.expires_at;
  delete_after = delete_time r.root_id r.expires_at r.retention_ms;
  settled_at = none;
}

abbrev pub task_row : Request → TaskRow
task_row r = record {
  promise_id = r.id;
  function = r.function;
  version = r.version;
  topic = r.topic;
  input = r.input;
  depth = r.depth;
  pending_waits = 0;
  priority = r.priority;
  available_at = r.available_at;
  failures = 0;
  max_failures = r.max_failures;
  execution_timeout_ms = r.execution_timeout_ms;
}

-- One row of the insertion: ON CONFLICT (id) DO NOTHING, and a task for a promise that is new.
unfoldable pub submit_one : Request → Store → Store
submit_one r s =
    if known s.promises r.id
    then s
    else record s { promises = s.promises ++ call_row r ∷ []; tasks = s.tasks ++ task_row r ∷ [] }

-- The requests of a statement have distinct ids, so that they can be taken one by one.
unfoldable pub submit_calls : List Request → Store → Store
unfolding submit_one
submit_calls [] s = s
submit_calls (r ∷ rs) s = submit_calls rs (submit_one r s)

pub record Timer : Type 0 where
  pub id : String
  pub idempotency_key : String
  pub root_id : Option String
  pub due_at : ℕ
  pub retention_ms : ℕ

abbrev pub timer_row : Timer → PromiseRow
timer_row t = record {
  id = t.id;
  idempotency_key = t.idempotency_key;
  state = PromiseState.pending;
  root_id = t.root_id;
  result = none;
  error = none;
  due_at = some t.due_at;
  expires_at = none;
  delete_after = delete_time t.root_id t.due_at t.retention_ms;
  settled_at = none;
}

unfoldable pub insert_timer : Timer → Store → Store
insert_timer t s =
    if known s.promises t.id then s else record s { promises = s.promises ++ timer_row t ∷ [] }

-- What submit_timer gives: the promise that is there then, or the id whose fingerprint differs.
pub data Timed : Type 0 where
  timed : PromiseRow → Timed
  idempotency_conflict promise_not_found : String → Timed

abbrev pub checked_timer : Timer → Option PromiseRow → Timed
checked_timer t none = promise_not_found t.id
checked_timer t (some p) =
    if p.idempotency_key == t.idempotency_key then timed p else idempotency_conflict t.id

unfoldable pub submit_timer : Timer → Store → Store × Timed
unfolding insert_timer
submit_timer t s =
    let s' = insert_timer t s in (s', checked_timer t (find_promise s'.promises t.id))
