-- ===== src/Store/Claim.antt =====
-- claim_task of reaper/tasks/__init__.py, ClaimedTask and WaitedPromise of reaper/tasks/models.py and
-- reaper/waits/models.py, and reaper/tasks/queries/claim.sql. Rows that other transactions have locked
-- are skipped; the order of texts is the database's.
use reaper.Base.{
  ℕ, String, Bool, false, not, ◌&&◌, ◌||◌, Option, none, some, List, [], ◌∷◌, if◌then◌else◌, ◌==◌,
  string_eq, nat_eq, leb, ltb,
}
use reaper.Store.Types.{PromiseState, PromiseRow, TaskRow, WaitRow, Store, is_pending}
use reaper.Store.Rows.{any, keep, find_promise}
use reaper.Store.Order.{sort_by, head}

pub record FunctionVersion : Type 0 where
  pub function : String
  pub version : ℕ

pub record WaitedPromise : Type 0 where
  pub id : String
  pub state : PromiseState
  pub result : Option String
  pub error : Option String
  pub settled_at_ms : Option ℕ

pub record ClaimedTask : Type 0 where
  pub id : String
  pub root_id : Option String
  pub function : String
  pub version : ℕ
  pub topic : String
  pub input : String
  pub depth : ℕ
  pub max_failures : ℕ
  pub execution_timeout_ms : ℕ
  pub waits : List WaitedPromise

abbrev pub is_excluded : List FunctionVersion → TaskRow → Bool
is_excluded excluded t = any (λ e. e.function == t.function && e.version == t.version) excluded

-- expires_at > STATEMENT_TIMESTAMP()
abbrev pub is_later : ℕ → Option ℕ → Bool
is_later now none = false
is_later now (some t) = ltb now t

abbrev pub is_alive : ℕ → List PromiseRow → String → Bool
is_alive now ps a = any (λ p. p.id == a && (is_pending p.state && is_later now p.expires_at)) ps

-- The WHERE clause of the statement.
unfoldable pub claimable :
    ℕ → String → List FunctionVersion → (String → Bool) → List PromiseRow → TaskRow → Bool
claimable now topic excluded locked ps t =
    t.topic == topic
    && (not (is_excluded excluded t)
        && (t.pending_waits == 0
            && (leb t.available_at now
                && (is_alive now ps t.promise_id && not (locked t.promise_id)))))

abbrev pub child_of : PromiseRow → WaitedPromise
child_of p = record {
  id = p.id;
  state = p.state;
  result = p.result;
  error = p.error;
  settled_at_ms = p.settled_at;
}

-- reaper.waits joined with reaper.promises
unfoldable pub waited : List PromiseRow → String → List WaitRow → List WaitedPromise
waited ps a [] = []
waited ps a (w ∷ ws) =
    let rest = waited ps a ws in
    if w.waiter_id == a
    then elim (find_promise ps w.awaited_id) [ none ↦ rest | some p ↦ child_of p ∷ rest ]
    else rest

abbrev pub root_of : List PromiseRow → String → Option String
root_of ps a = elim (find_promise ps a) [ none ↦ none | some p ↦ p.root_id ]

module _ (precedes : String → String → Bool) where
  -- priority DESC, available_at ASC, promise_id ASC
  unfoldable pub claims_before : TaskRow → TaskRow → Bool
  claims_before t u =
      ltb u.priority t.priority
      || (t.priority == u.priority
          && (ltb t.available_at u.available_at
              || (t.available_at == u.available_at && precedes t.promise_id u.promise_id)))

  unfoldable pub claim :
      ℕ → String → List FunctionVersion → (String → Bool) → Store → Option TaskRow
  claim now topic excluded locked s =
      head (sort_by claims_before (keep (claimable now topic excluded locked s.promises) s.tasks))

  abbrev pub claimed_task : Store → TaskRow → ClaimedTask
  claimed_task s t = record {
    id = t.promise_id;
    root_id = root_of s.promises t.promise_id;
    function = t.function;
    version = t.version;
    topic = t.topic;
    input = t.input;
    depth = t.depth;
    max_failures = t.max_failures;
    execution_timeout_ms = t.execution_timeout_ms;
    waits = sort_by (λ c d. precedes c.id d.id) (waited s.promises t.promise_id s.waits);
  }

  unfoldable pub claim_task :
      ℕ → String → List FunctionVersion → (String → Bool) → Store → Option ClaimedTask
  unfolding claim waited
  claim_task now topic excluded locked s = elim (claim now topic excluded locked s) [
    | none ↦ none
    | some t ↦ some (claimed_task s t)
  ]
