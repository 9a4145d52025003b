-- ===== src/Durable/Tests.antt =====
-- A task that calls two functions and gathers them: the first has settled, the second is new.
use reaper.Base.{◌≡◌, refl, true, none, some, List, [], ◌∷◌, All}
use reaper.Store.Types.{PromiseState}
use reaper.Durable.Compose.{Reads}
use reaper.Durable.Context.{Stored, waited, Context, suspended}
use reaper.Durable.Calls.{Call, gathered, failed, collect, invoke_all, gather}
use reaper.Durable.Kept.{IsPromised}
use reaper.Durable.Replay.{invoke_all-replays}
use reaper.Durable.Gather.{Settles, gather-Settles}

abbrev loaded : Stored
loaded = waited (record {
  id = "root:1:load";
  state = PromiseState.resolved;
  result = some "1";
  error = none;
  settled_at_ms = some 4;
})

abbrev stored : Stored
stored = waited (record {
  id = "root:2:store";
  state = PromiseState.pending;
  result = none;
  error = none;
  settled_at_ms = none;
})

abbrev task : Context
task = record {
  task_id = "root";
  memo = ("root:1:load", loaded) ∷ [];
  call_index = 0;
  depth = 0;
  executes = true;
}

abbrev calls : List Call
calls =
    record { name = "load"; input_size = 2; answer = none }
    ∷ record { name = "store"; input_size = 2; answer = some stored }
    ∷ []

calls-IsPromised : All IsPromised (invoke_all calls task).all_called
unfolding invoke_all
calls-IsPromised = (tt, (tt, tt))

calls-sent : (invoke_all calls task).all_sent ≡ "root:2:store" ∷ []
unfolding invoke_all
calls-sent = refl

invoke_all-replays_example :
    let again = record task { memo = (invoke_all calls task).last_context.memo } in
    ((invoke_all calls again).all_called ≡ (invoke_all calls task).all_called)
    × ((invoke_all calls again).all_sent ≡ [])
invoke_all-replays_example = invoke_all-replays calls task calls-IsPromised

calls-gathered : collect (invoke_all calls task).all_called ≡ gathered (loaded ∷ stored ∷ [])
unfolding invoke_all
calls-gathered = refl

gather-Settles_example : Settles (loaded ∷ stored ∷ []) (gather calls task)
gather-Settles_example = gather-Settles calls task (loaded ∷ stored ∷ []) calls-gathered

calls-suspend : gather calls task ≡ failed (suspended ("root:2:store" ∷ []))
unfolding gather
calls-suspend = refl

abbrev summed : Stored
summed = waited (record {
  id = "root:2:sum";
  state = PromiseState.resolved;
  result = some "1";
  error = none;
  settled_at_ms = some 6;
})

-- The task once the call that joins has settled too.
abbrev joining : Context
joining = record task { memo = ("root:1:load", loaded) ∷ ("root:2:sum", summed) ∷ [] }

abbrev loads : List Call
loads = record { name = "load"; input_size = 2; answer = none } ∷ []

abbrev sum : List Stored → Call
sum ps = record { name = "sum"; input_size = 2; answer = none }

abbrev reads : Reads
reads p = (1, true)
