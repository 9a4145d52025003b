-- ===== src/Lib.antt =====
-- Reaper: a durable promise store over PostgreSQL and its pools of warm child processes. A parent
-- process keeps each pool at its target size and hands jobs to its children; a child runs the parent's
-- jobs, or one resident service that polls the store for tasks or maintains it.
--
-- The parts, the files that model them and the code:
--   Base         shared names, lists, counts and dictionaries over the native numbers.
--   Control      reaper/control.py, the parent's reducer ReaperCore. Control/Types and Control/Core
--                hold its data and one function for each method; Control/Apply its `apply`, as the
--                transition followed by the seven assertions. A set is a list, and a dict a list of
--                entries in the order of insertion. The other files are proofs: Control/Safety and
--                those before it about one event, Control/Histories about sequences of events.
--   Skeleton     reaper/skeleton.py, a child's lifecycle reducer SkeletonCore. A method that raises
--                gives the error and the state as it was left. Skeleton/Driver is the reporter of
--                skeleton_main in reaper/pool.py, which feeds the reducer for a child's life.
--   Child        child_loop and service_child_loop of reaper/pool.py as traces of lifecycle reports,
--                messages and sleeps; Child/Rounds says what each round tells and sleeps.
--   Worker       reaper/worker.py: run_claimed_task and settle_execution (Worker/Tasks), poll_tasks
--                (Worker/Poll), poll_maintenance (Worker/Maintenance), as the reports that they make.
--   Listener     PostgresListener of reaper/postgres.py, which wakes poll_tasks.
--   Postgres     PostgresPool of reaper/postgres.py, the owner of the driver's connection pool.
--   Tasks        reaper/tasks/__init__.py: TaskClaim with release_connection and finish_transaction of
--                reaper/database/__init__.py, TaskExecution, submit_calls.
--   Store        reaper/schema.sql and the statements under reaper/*/queries with the functions that send
--                them. Store/Types holds the three tables as lists of rows; Store/Submit, Store/Claim,
--                Store/Settle, Store/Suspend, Store/Tasks and Store/Maintain hold one function for each
--                statement; Store/Events composes them to transactions. Store/Keeps, Store/Status and
--                Store/Ready are proofs about them.
--   Durable      reaper/promise.py: Context (Durable/Context), invoke, gather and first (Durable/Calls),
--                join, fanout and mapreduce (Durable/Compose, with Durable/Joins about them), execute,
--                result and sleep (Durable/Execute). What a submission, a read of the store and
--                the function's body give are inputs.
--   Settings     reaper/settings.py: the compact form of a pool, the bounds of ReaperSettings.
--   Pool         reaper/pool.py: HeartbeatWatch (Pool/Heartbeat), schedule_recovery (Pool/Recovery),
--                the service fault circuit (Pool/Faults and Pool/Circuit), the frames of the control
--                socket (Pool/Frames and Pool/Messages), where bytes are natural numbers, and the
--                futures of the jobs (Pool/Futures and Pool/Answers). Pool/Spawn is spawn_effect with
--                its descriptors, Pool/Slots the record SkeletonPool with slot_for, drop and sync_slots,
--                Pool/Drive the loop of drive. Pool/Operations holds the submit of a started pool, read_slot,
--                lose, send_run and recover_after, Pool/Watching the rounds of monitor_heartbeats,
--                Pool/Teardown close; Pool/Lives a new pool and sequences of operations; Pool/Starting
--                start with the wait of finish_start and the close when it fails, and submit; Pool/Family
--                from_settings and the child pools. Pool/Tidy is a proof about spawns; Pool/Names,
--                Pool/Mirror, Pool/Rounds, Pool/Carries, Pool/Turns, Pool/Finishes and Pool/Synced about
--                one drive; Pool/Serving, Pool/Serves, Pool/Runs, Pool/Submits,
--                Pool/Started, Pool/Stays and Pool/Begins about operations.
-- A file called Tests or Scenes holds runs at concrete inputs and applies the theorems to them.
--
-- How the parts meet: each operation of a pool gives an event to the control reducer, and drive carries
-- out the effects that come back: it spawns, stops, feeds and reaps children, completes the futures of the
-- jobs, and gives the outcome of each spawn to the reducer as the next event. A child's loop and its
-- service report every step to one lifecycle reducer, so the reports of Worker are composed with those of
-- Child and judged by Skeleton; a task service waits on a listener and claims through TaskClaim; what a
-- claim does until it commits is one transaction of Store. A claimed task runs a durable function, whose calls take their promises from the memo of the claim's waits or
-- submit them.
--
-- Code outside the repository, and the calls of the operating system, the event loop and the database
-- driver, are inputs of the model: a record or a list says what each await gives, or that it raises. A
-- cancelled coroutine is one whose await raises; a cancellation inside a lifecycle report is not
-- modelled. Times, delays, file descriptors, generations and versions are natural numbers; delays of
-- the pool are milliseconds. Python's integers have no bound, so nothing wraps around.
--
-- Transactions of the store run one after another. Rows that another one has locked are a test that the
-- statements with SKIP LOCKED take, and the order of texts is a parameter. A submission takes its rows
-- one by one, since their ids are distinct; a promise whose root is not in the table is inserted, which
-- the foreign key would refuse. A task's priority is counted from the least one. A
-- row that one statement both updates and deletes is only updated, as PostgreSQL does it. The notices of a
-- settlement are modelled, those of a submission, a retry and a suspension are not.
--
-- An operation of a pool runs to its end before the next: what happens while one awaits is another
-- operation of the sequence. What the system answers is a record Host, a function of the pool at that
-- time; the theorems that need it rely on the descriptor of a new child being free, as the operating
-- system gives it, on a configuration of at most 8 KiB, and on the killpg of a KILL, to the group of a
-- child that has not been waited for, raising no OSError; one that it raises ends the drive. The reader of a slot that is dropped has been
-- cancelled, and a slot under the same descriptor is then another child's.
--
-- asyncio.gather starts its calls in order, so that they take their ids in order, and the model runs each
-- to its end in that order; of several faults it takes the first in order. `first` takes the promises in
-- order where the event loop gives a set, which matters for equal times only.
--
-- Bounds: the loop of `fill` recurs on the core's target as fuel, since it counts up to the target;
-- the loop of `read_bytes` on the number of bytes asked for, since a receive that is not at the end of
-- the stream gives one or more; the batches of a collection on the source's own limit of ten; the
-- digits of a number on the number, since a number from one on has at most as many digits; the loop of
-- `drive` on the cost of its effects, a spawn more than any other, with what the core can still ask
-- for; the writes of a child's configuration on the bytes that are left. All other
-- loops recur on the list of their inputs, and end in a state that waits when the list does.
--
-- Not modelled: logging, with the reports of log_lifecycle and log_exit; pickling and JSON; the command
-- line; signals, cgroups and what a process does before its loop; a cancellation inside a spawn,
-- and wait_failure, which waits and closes; the models of a durable function's parameters
-- and result; systemd notification.
pub mod Base
pub mod Control
pub mod Durable
pub mod Skeleton
pub mod Child
pub mod Worker
pub mod Tasks
pub mod Listener
pub mod Pool
pub mod Postgres
pub mod Settings
pub mod Store
