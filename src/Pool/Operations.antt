-- ===== src/Pool/Operations.antt =====
-- The operations of SkeletonPool in reaper/pool.py that speak to the core: submit, the messages of
-- a child, and the tasks that send and recover. Each runs to its end before the next; what happens while
-- an operation waits is another operation of the sequence.
use reaper.Base.{
  ◌+◌, String, Bool, false, not, ◌||◌, Option, none, some, if◌then◌else◌, ◌==◌, nat_eq, string_eq,
  leb, length,
}
use Prim.Native.String
use reaper.Base.Dict.{get, put}
use reaper.Control.Types.{SkeletonId, EventKind, ControlEvent, ControlEffect}
use reaper.Control.Core.{is_starting, is_running}
use reaper.Control.Apply.{Outcome, applied, assertion_error, apply}
use reaper.Control.Costs.{costs, potential}
use reaper.Pool.Futures.{Note, job_of, text_or}
use reaper.Pool.Recovery.{absent, became_ready, schedule_recovery}
use reaper.Pool.Faults.{clear_service_faults, record_service_fault}
use reaper.Pool.Slots.{Slot, SkeletonPool, live_slot, slot_for, write_slot}
use reaper.Pool.Drive.{Host, Driven, driven, raised, unfinished, drive, with_core}

-- A message of a child, as `read_slot` sees it: no message at all is the end of the connection.
pub data Incoming : Type 0 where
  ready healthy lifecycle state other gone : Incoming
  service_fault : Option String → Option String → Option String → Option String → Incoming
  fatal : Option String → Option String → Option String → Incoming
  result : String → Bool → Note → Incoming
  unknown : String → Incoming

-- An exception stops what follows.
infixl 5 ◌>>=◌
abbrev pub ◌>>=◌ : Driven → (SkeletonPool → Driven) → Driven
driven p >>= f = f p
raised p >>= f = raised p
unfinished p es >>= f = unfinished p es

-- await self.drive(effects), with fuel for what the effects can cost; an exception of the core is
-- raised in place of it.
abbrev pub carried_out : Host → SkeletonPool → Outcome → Driven
carried_out host p (applied c effects) =
    drive host (costs effects + potential c) effects (with_core p c)
carried_out host p (assertion_error c) = raised (with_core p c)

-- await self.drive(self.core.apply(event))
unfoldable pub perform : Host → ControlEvent → SkeletonPool → Driven
perform host event p = carried_out host p (apply p.core event)

abbrev pub plain_event : EventKind → ControlEvent
plain_event k = record { kind = k; identity = none; gen = none; job = none; ok = false }

abbrev pub slot_event : EventKind → SkeletonId → ControlEvent
slot_event k i = record { kind = k; identity = some i; gen = none; job = none; ok = false }

abbrev pub job_event : String → ControlEvent
job_event job = record {
  kind = EventKind.submit;
  identity = none;
  gen = none;
  job = some job;
  ok = false;
}

abbrev pub result_event : SkeletonId → String → Bool → ControlEvent
result_event i job ok = record {
  kind = EventKind.result;
  identity = some i;
  gen = none;
  job = some job;
  ok = ok;
}

abbrev pub failed_event : SkeletonId → Option String → ControlEvent
failed_event i job = record {
  kind = EventKind.send_failed;
  identity = some i;
  gen = none;
  job = job;
  ok = false;
}

abbrev pub recovering_after : Bool → SkeletonPool → Driven
recovering_after pre_ready p =
    driven (record p { recovery = schedule_recovery p.recovery pre_ready })

unfoldable pub lose : Host → SkeletonId → SkeletonPool → Driven
unfolding perform
lose host i p = elim (live_slot p i) [
  | none ↦ driven p
  | some slot ↦
      perform host (slot_event EventKind.eof slot.identity) p
      >>= recovering_after (is_starting slot.state)
]

abbrev pub faulted : Slot → String → String → String → Slot
faulted slot kind text trace = record slot {
  fault_kind = kind;
  fault_text = text;
  fault_trace = trace;
}

-- `slot.state is not RUNNING or slot.job_id != job`
abbrev pub is_stale : Slot → String → Bool
is_stale slot job =
    not (is_running slot.state)
    || not (elim slot.job_id [ none ↦ false | some expected ↦ expected == job ])

abbrev pub with_result : SkeletonPool → String → Note → SkeletonPool
with_result p job note = record p {
  futures = record p.futures { results = put p.futures.results job note };
}

-- One message, from a slot that is live.
unfoldable pub on_message : Host → Incoming → Slot → SkeletonPool → Driven
unfolding lose perform
on_message host ready slot p =
    perform host (slot_event EventKind.ready slot.identity)
      (record p { recovery = became_ready p.recovery; circuit = clear_service_faults p.circuit })
on_message host healthy slot p =
    driven
      (write_slot (record p { circuit = clear_service_faults p.circuit }) (faulted slot "" "" ""))
on_message host lifecycle slot p = driven p
on_message host state slot p = driven p
on_message host other slot p = driven p
on_message host gone slot p = lose host slot.identity p
on_message host (service_fault kind text trace code) slot p = driven (
    write_slot
      (record p {
        circuit = record_service_fault p.circuit (record {
          gen = slot.identity.gen;
          kind = text_or "Error" kind;
          code = text_or "" code;
        });
      })
      (faulted slot (text_or "Error" kind) (text_or "" text) (text_or "" trace)))
on_message host (fatal kind text trace) slot p =
    driven (write_slot p (faulted slot (text_or "Error" kind) (text_or "" text) (text_or "" trace)))
on_message host (result job ok note) slot p =
    if is_stale slot job
    then driven p
    else perform host (result_event slot.identity job ok) (with_result p job note)
on_message host (unknown op) slot p = lose host slot.identity (
    write_slot p (record slot {
      fault_kind = "ProtocolError";
      fault_text = String.◌++◌ "unknown skeleton message " op;
    }))

-- A round of `while self.slots.get(slot.identity.fd) is slot`.
unfoldable pub read_slot : Host → SkeletonId → Incoming → SkeletonPool → Driven
unfolding on_message
read_slot host i message p = elim (live_slot p i) [
  | none ↦ driven p
  | some slot ↦ on_message host message slot p
]

abbrev pub with_job : SkeletonPool → String → SkeletonPool
with_job p job = record p { futures = record p.futures { jobs = put p.futures.jobs job false } }

-- What a submission comes to: the drive of its event, after which the caller awaits the future, or a
-- RuntimeError for the caller, which leaves the pool as it is.
pub data Submitted : Type 0 where
  taken : Driven → Submitted
  refused : SkeletonPool → Submitted

-- The end of `submit`, from the test of the queue on.
unfoldable pub enqueue : Host → String → SkeletonPool → Submitted
unfolding perform
enqueue host job p =
    if leb p.queue_limit (length p.core.queue)
    then refused p
    else taken (perform host (job_event job) (with_job p job))

-- `submit` of a pool that has started.
unfoldable pub submit_started : Host → String → SkeletonPool → Submitted
unfolding enqueue
submit_started host job p = if p.recovery.closing then refused p else enqueue host job p

-- What a submission leaves to the other tasks.
abbrev pub left_by : Submitted → Driven
left_by (taken r) = r
left_by (refused p) = driven p

unfoldable pub recover_after : Host → SkeletonPool → Driven
unfolding perform
recover_after host p =
    let woken = record p { recovery = record p.recovery { recovery_task = absent } } in
    if p.recovery.closing then driven woken else perform host (plain_event EventKind.recover) woken

-- The exception of a send, as the slot's fault: its kind, text and trace.
abbrev pub SendFault : Type 0
SendFault = String × String × String

abbrev pub sent_to : Host → ControlEffect → Option SendFault → Slot → SkeletonPool → Driven
sent_to host e none slot p = driven (write_slot p (record slot { job_id = some (job_of e) }))
sent_to host e (some (kind, text, trace)) slot p =
    perform host (failed_event slot.identity e.job)
      (write_slot p (record (faulted slot kind text trace) { job_id = some (job_of e) }))
    >>= recovering_after false

unfoldable pub send_run : Host → ControlEffect → Option SendFault → SkeletonPool → Driven
unfolding perform
send_run host e fault p = elim (slot_for p e.identity) [
  | none ↦ driven p
  | some slot ↦ elim (get p.futures.jobs (job_of e)) [
    | none ↦ driven p
    | some done ↦ sent_to host e fault slot p
  ]
]
