-- ===== src/Store/Types.antt =====
-- The tables of reaper/schema.sql and PromiseState of reaper/models.py. Times are natural numbers of
-- milliseconds, JSON values are texts, and a task's priority is counted from its least value.
use reaper.Base.{ℕ, String, Bool, true, false, Option, none, some, List}

pub data PromiseState : Type 0 where
  pending resolved rejected timed_out : PromiseState

-- reaper.promises; `graph_id` is computed from the other columns.
pub record PromiseRow : Type 0 where
  pub id : String
  pub idempotency_key : String
  pub state : PromiseState
  pub root_id : Option String
  pub result : Option String
  pub error : Option String
  pub due_at : Option ℕ
  pub expires_at : Option ℕ
  pub delete_after : Option ℕ
  pub settled_at : Option ℕ

-- coalesce(root_id, id)
abbrev pub graph_id : PromiseRow → String
graph_id p = elim p.root_id [ none ↦ p.id | some root ↦ root ]

-- reaper.tasks
pub record TaskRow : Type 0 where
  pub promise_id : String
  pub function : String
  pub version : ℕ
  pub topic : String
  pub input : String
  pub depth : ℕ
  pub pending_waits : ℕ
  pub priority : ℕ
  pub available_at : ℕ
  pub failures : ℕ
  pub max_failures : ℕ
  pub execution_timeout_ms : ℕ

-- reaper.waits
pub record WaitRow : Type 0 where
  pub waiter_id : String
  pub awaited_id : String
  pub graph_id : String

pub record Store : Type 0 where
  pub promises : List PromiseRow
  pub tasks : List TaskRow
  pub waits : List WaitRow

abbrev pub is_pending : PromiseState → Bool
is_pending PromiseState.pending = true
is_pending s = false

abbrev pub is_some {ℓ} : {A : Type ℓ} → Option A → Bool
is_some none = false
is_some (some a) = true
