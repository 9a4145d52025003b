-- ===== src/Store/Tests.antt =====
-- Runs of the store on a small graph: a root call that starts a child and waits for it.
use reaper.Base.{
  ℕ, ◌≡◌, ◌≢◌, refl, String, Bool, true, false, Option, none, some, List, [], ◌∷◌, All, leb, ◌==◌,
  string_eq, if◌then◌else◌,
}
use reaper.Store.Types.{PromiseState, Store, is_pending}
use reaper.Store.Rows.{known, has_task, find_promise, pending, pending_call, awaiting}
use reaper.Store.Order.{sort_by}
use reaper.Store.Settle.{Settlement, settlement, resolved, notified, contains_id}
use reaper.Store.Submit.{Request, submit_calls}
use reaper.Store.Claim.{claim_task, claimable, ClaimedTask}
use reaper.Store.Events.{
  submits, times, completes, suspends, Claiming, Event, works, executes, processes, deletes, step,
  run,
}
use reaper.Store.Invariant.{IsConsistent}
use reaper.Store.Keeps.Running.{AllApart, run-IsConsistent}
use reaper.Store.Status.{status, Moves}
use reaper.Store.Status.Refines.{step-Moves}
use reaper.Durable.Context.{Stored, waited, preloaded, claimed_context}
use reaper.Durable.Calls.{Call, gathered, collect, invoke_all, gather}
use reaper.Durable.Resume.{gather-claimed}
use reaper.Store.Ready.{claim_task-IsSettled, notified-ready, waits_after, submit_calls-twice}

abbrev empty_store : Store
empty_store = record { promises = []; tasks = []; waits = [] }

empty_store-IsConsistent : IsConsistent empty_store
unfolding pending_call has_task
empty_store-IsConsistent = record {
  counted = tt;
  owned = λ a. refl;
  unique = tt;
  one_kind = λ a. refl;
  linked = tt;
}

abbrev rank : String → ℕ
rank a = if a == "root:1:f" then 0 else if a == "root" then 1 else 2

abbrev by_rank : String → String → Bool
by_rank a b = leb (rank a) (rank b)

abbrev no_lock : String → Bool
no_lock a = false

abbrev request : String → Option String → ℕ → Request
request id root_id priority = record {
  id = id;
  idempotency_key = "key";
  root_id = root_id;
  expires_at = 100;
  retention_ms = 50;
  function = "f";
  version = 1;
  topic = "default";
  input = "{}";
  depth = 0;
  priority = priority;
  available_at = 0;
  max_failures = 2;
  execution_timeout_ms = 1000;
}

abbrev at_time : ℕ → Claiming
at_time now = record { now = now; topic = "default"; excluded = []; locked = no_lock }

-- The root starts its child and waits; the child completes; the root completes.
abbrev root_waits : Event
root_waits =
    executes (at_time 1) (submits (request "root:1:f" (some "root") 0 ∷ []) ∷ []) 2
      (suspends ("root:1:f" ∷ []))

abbrev story : List Event
story =
    works (submits (request "root" none 0 ∷ []))
    ∷ root_waits
    ∷ executes (at_time 3) [] 4 (completes (some "1"))
    ∷ []

abbrev waiting_store : Store
waiting_store =
    run by_rank (works (submits (request "root" none 0 ∷ [])) ∷ root_waits ∷ []) empty_store

abbrev ready_store : Store
ready_store = run by_rank story empty_store

waiting_store-IsConsistent : IsConsistent waiting_store
waiting_store-IsConsistent =
    run-IsConsistent by_rank (works (submits (request "root" none 0 ∷ [])) ∷ root_waits ∷ [])
      empty_store (tt, (tt, tt)) empty_store-IsConsistent

-- The root ends, time passes for all that is left, and the graph goes.
abbrev rest : List Event
rest =
    executes (at_time 5) [] 6 (completes (some "2"))
    ∷ works (
        times (record {
          id = "timer";
          idempotency_key = "key";
          root_id = none;
          due_at = 10;
          retention_ms = 5;
        }))
    ∷ processes no_lock no_lock 20 10
    ∷ deletes no_lock 200 10
    ∷ []

ready_store-IsConsistent : IsConsistent ready_store
ready_store-IsConsistent =
    run-IsConsistent by_rank story empty_store (tt, (tt, (tt, tt))) empty_store-IsConsistent

-- No call expires in the rest.
rest-AllApart : AllApart by_rank rest ready_store
unfolding run known sort_by claimable has_task find_promise pending awaiting
rest-AllApart = (tt, (tt, ((λ a h. refl), (tt, tt))))

-- The root and the child that it waits for time out together: the root's task is woken, and stays although
-- its promise has settled.
abbrev expired_store : Store
expired_store = step by_rank (processes no_lock no_lock 100 10) waiting_store

expired_root-stays :
    (has_task expired_store.tasks "root" ≡ true)
    × (pending_call expired_store.promises "root" ≡ false)
unfolding run known sort_by claimable has_task find_promise pending awaiting pending_call
expired_root-stays = (refl, refl)

run-IsConsistent_example : IsConsistent (run by_rank rest ready_store)
run-IsConsistent_example =
    run-IsConsistent by_rank rest ready_store rest-AllApart ready_store-IsConsistent

-- All promises are gone in the end.
rest-empties : run by_rank rest ready_store ≡ empty_store
unfolding run known sort_by claimable has_task find_promise pending awaiting
rest-empties = refl

step-Moves_example : Moves (status waiting_store "root:1:f") (
    status
      (step by_rank (executes (at_time 3) [] 4 (completes (some "1"))) waiting_store)
      "root:1:f")
step-Moves_example =
    step-Moves by_rank (executes (at_time 3) [] 4 (completes (some "1"))) waiting_store "root:1:f"
      waiting_store-IsConsistent

abbrev root_claim : ClaimedTask
root_claim = record {
  id = "root";
  root_id = none;
  function = "f";
  version = 1;
  topic = "default";
  input = "{}";
  depth = 0;
  max_failures = 2;
  execution_timeout_ms = 1000;
  waits =
      record {
        id = "root:1:f";
        state = PromiseState.resolved;
        result = some "1";
        error = none;
        settled_at_ms = some 4;
      }
      ∷ [];
}

ready_store-claims : claim_task by_rank 5 "default" [] no_lock ready_store ≡ some root_claim
unfolding claim_task run known sort_by claimable has_task find_promise pending awaiting
ready_store-claims = refl

claim_task-IsSettled_example : All (λ w. is_pending w.state ≡ false) root_claim.waits
claim_task-IsSettled_example =
    claim_task-IsSettled by_rank 5 "default" [] no_lock ready_store root_claim
      ready_store-IsConsistent ready_store-claims

-- Two roots, of which the second has the higher priority.
abbrev two_calls : List Request
two_calls = request "root" none 1 ∷ request "root:1:f" none 7 ∷ []

abbrev two_roots : Store
two_roots = submit_calls two_calls empty_store

abbrev child_done : Settlement
child_done = settlement 4 "root:1:f" (resolved (some "1"))

notified-ready_example :
    All
      (λ t.
        t.pending_waits ≢ 0
        → waits_after child_done waiting_store t ≡ 0
        → contains_id (notified child_done waiting_store) t.topic ≡ true)
      waiting_store.tasks
notified-ready_example = notified-ready child_done waiting_store

child_done-tells : notified child_done waiting_store ≡ "default" ∷ []
unfolding notified run known sort_by claimable has_task find_promise pending awaiting
child_done-tells = refl

submit_calls-twice_example : submit_calls two_calls (submit_calls two_calls empty_store) ≡ two_roots
submit_calls-twice_example = submit_calls-twice two_calls empty_store

-- The root runs again: its call of f finds the child.
abbrev again_calls : List Call
again_calls = record { name = "f"; input_size = 2; answer = none } ∷ []

abbrev child_stored : Stored
child_stored = waited (record {
  id = "root:1:f";
  state = PromiseState.resolved;
  result = some "1";
  error = none;
  settled_at_ms = some 4;
})

again_calls-gathered :
    collect (invoke_all again_calls (claimed_context root_claim)).all_called
    ≡ gathered (child_stored ∷ [])
unfolding invoke_all preloaded
again_calls-gathered = refl

again_calls-sent : (invoke_all again_calls (claimed_context root_claim)).all_sent ≡ []
unfolding invoke_all preloaded
again_calls-sent = refl

gather-claimed_example :
    gather again_calls (claimed_context root_claim) ≡ gathered (child_stored ∷ [])
gather-claimed_example =
    gather-claimed by_rank 5 "default" [] no_lock ready_store root_claim again_calls
      (child_stored ∷ []) ready_store-IsConsistent ready_store-claims again_calls-gathered
      again_calls-sent
