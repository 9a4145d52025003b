-- ===== src/Pool/Stays.antt =====
-- Every operation of reaper/pool.py on a started pool leaves it started.
use reaper.Base.{
  ℕ, ◌+◌, ◌≡◌, string_eq, ◌∙◌, String, Bool, true, false, Option, none, some, List, [], ◌∷◌,
  Option-cases, inl, inr, if_elim, not, ◌||◌, leb, length,
}
use reaper.Base.Dict.{get, values}
use reaper.Control.Types.{SkeletonId, EventKind, ControlEvent, ControlEffect}
use reaper.Control.Core.{is_starting}
use reaper.Control.Apply.{Outcome, applied, assertion_error, apply}
use reaper.Control.Costs.{costs, potential}
use reaper.Pool.Futures.{job_of}
use reaper.Pool.Heartbeat.{HeartbeatWatch}
use reaper.Pool.Slots.{Slot, SkeletonPool, live_slot, slot_for}
use reaper.Pool.Drive.{Host, Driven, driven, raised, unfinished, with_core}
use reaper.Pool.Operations.{
  submit_started, left_by, Incoming, SendFault, ◌>>=◌, carried_out, perform, plain_event,
  slot_event, result_event, recovering_after, lose, on_message, read_slot, is_stale, enqueue,
  recover_after, sent_to, send_run, failed_event, ready, healthy, lifecycle, state, other, gone,
  service_fault, fatal, result, unknown,
}
use reaper.Pool.Watching.{Reading, judged, watch_slot, watch_each, watch_heartbeats}
use reaper.Pool.Lives.{Operation, operate, operate_all}
use reaper.Pool.Started.{on, write_slot-started, drive-started}

-- An operation that ends with the pool started.
abbrev pub Stays : Driven → Type 0
Stays r = on r ≡ true

pub Stays-then :
    (r : Driven) (f : SkeletonPool → Driven)
    → Stays r
    → ((q : SkeletonPool) → q.started ≡ true → Stays (f q))
    → Stays (r >>= f)
Stays-then (driven q) f h k = k q h
Stays-then (raised q) f h k = h
Stays-then (unfinished q es) f h k = h

pub perform-Stays :
    (host : Host) (e : ControlEvent) (p : SkeletonPool)
    → p.started ≡ true
    → Stays (perform host e p)
unfolding perform
perform-Stays host e p h = go (apply p.core e)
  where
    go : (o : Outcome) → Stays (carried_out host p o)
    go (applied c effects) =
        drive-started host (costs effects + potential c) effects (with_core p c) ∙ h
    go (assertion_error c) = h

lose-Stays :
    (host : Host) (i : SkeletonId) (p : SkeletonPool) → p.started ≡ true → Stays (lose host i p)
unfolding lose
lose-Stays host i p h = elim (Option-cases (live_slot p i)) [
  | inl n ↦ rw (n, lose) h
  | inr (s, f) ↦
      rw (f, lose)
        (Stays-then (perform host (slot_event EventKind.eof s.identity) p)
          (recovering_after (is_starting s.state)) (perform-Stays host _ p h) (λ q stays. stays))
]

on_message-Stays :
    (host : Host) (message : Incoming) (s : Slot) (p : SkeletonPool)
    → p.started ≡ true
    → Stays (on_message host message s p)
unfolding on_message
on_message-Stays host ready s p h = perform-Stays host (slot_event EventKind.ready s.identity) _ h
on_message-Stays host healthy s p h = write_slot-started _ _ ∙ h
on_message-Stays host (service_fault kind text trace code) s p h = write_slot-started _ _ ∙ h
on_message-Stays host (fatal kind text trace) s p h = write_slot-started _ _ ∙ h
on_message-Stays host (result job ok note) s p h =
    if_elim Stays (is_stale s job) _ _ (λ _. h)
      (λ _. perform-Stays host (result_event s.identity job ok) _ h)
on_message-Stays host (unknown op) s p h = lose-Stays host s.identity _ (write_slot-started p _ ∙ h)
on_message-Stays host gone s p h = lose-Stays host s.identity p h
on_message-Stays host lifecycle s p h = h
on_message-Stays host state s p h = h
on_message-Stays host other s p h = h

read_slot-Stays :
    (host : Host) (i : SkeletonId) (message : Incoming) (p : SkeletonPool)
    → p.started ≡ true
    → Stays (read_slot host i message p)
unfolding read_slot
read_slot-Stays host i message p h = elim (Option-cases (live_slot p i)) [
  | inl n ↦ rw (n, read_slot) h
  | inr (s, f) ↦ rw (f, read_slot) (on_message-Stays host message s p h)
]

submit-Stays :
    (host : Host) (job : String) (p : SkeletonPool)
    → p.started ≡ true
    → Stays (left_by (submit_started host job p))
unfolding submit_started enqueue
submit-Stays host job p h =
    if_elim (λ r. Stays (left_by r)) p.recovery.closing _ _ (λ _. h)
      (λ _.
        if_elim (λ r. Stays (left_by r)) (leb p.queue_limit (length p.core.queue)) _ _ (λ _. h)
          (λ _. perform-Stays host _ _ h))

recover_after-Stays :
    (host : Host) (p : SkeletonPool) → p.started ≡ true → Stays (recover_after host p)
unfolding recover_after
recover_after-Stays host p h =
    if_elim Stays p.recovery.closing _ _ (λ _. h)
      (λ _. perform-Stays host (plain_event EventKind.recover) _ h)

sent_to-Stays :
    (host : Host) (e : ControlEffect) (fault : Option SendFault) (s : Slot) (p : SkeletonPool)
    → p.started ≡ true
    → Stays (sent_to host e fault s p)
sent_to-Stays host e none s p h = write_slot-started p _ ∙ h
sent_to-Stays host e (some (kind, text, trace)) s p h =
    Stays-then (perform host (failed_event s.identity e.job) _) (recovering_after false)
      (perform-Stays host (failed_event s.identity e.job) _ (write_slot-started p _ ∙ h))
      (λ q stays. stays)

send_run-Stays :
    (host : Host) (e : ControlEffect) (fault : Option SendFault) (p : SkeletonPool)
    → p.started ≡ true
    → Stays (send_run host e fault p)
unfolding send_run
send_run-Stays host e fault p h = elim (Option-cases (slot_for p e.identity)) [
  | inl n ↦ rw (n, send_run) h
  | inr (s, f) ↦ elim (Option-cases (get p.futures.jobs (job_of e))) [
    | inl n ↦ rw (f, n, send_run) h
    | inr (done, g) ↦ rw (f, g, send_run) (sent_to-Stays host e fault s p h)
  ]
]

judged-Stays :
    (now : ℕ) (read : Reading) (s : Slot) (p : SkeletonPool) (told : Option (HeartbeatWatch × Bool))
    → p.started ≡ true
    → Stays (judged now read s p told)
judged-Stays now read s p none h = h
judged-Stays now read s p (some (watch, true)) h = write_slot-started p _ ∙ h
judged-Stays now read s p (some (watch, false)) h = write_slot-started p _ ∙ h

watch_each-Stays :
    (timeout now : ℕ) (read : Slot → Reading) (slots : List Slot) (p : SkeletonPool)
    → p.started ≡ true
    → Stays (watch_each timeout now read slots p)
unfolding watch_each watch_slot
watch_each-Stays timeout now read [] p h = h
watch_each-Stays timeout now read (s ∷ rest) p h =
    Stays-then (watch_slot timeout now (read s) s p) (watch_each timeout now read rest)
      (if_elim Stays (not s.beat_fd) _ _ (λ _. h) (λ _. judged-Stays now (read s) s p _ h))
      (watch_each-Stays timeout now read rest)

watch_heartbeats-Stays :
    (beat_rate now : ℕ) (read : Slot → Reading) (p : SkeletonPool)
    → p.started ≡ true
    → Stays (watch_heartbeats beat_rate now read p)
unfolding watch_heartbeats
watch_heartbeats-Stays beat_rate now read p h =
    if_elim Stays (not p.started || p.recovery.closing) _ _ (λ _. h)
      (λ _. watch_each-Stays _ now read (values p.slots) p h)

operate-Stays :
    (host : Host) (o : Operation) (p : SkeletonPool) → p.started ≡ true → Stays (operate host o p)
unfolding operate
operate-Stays host Operation.recovers p h = recover_after-Stays host p h
operate-Stays host (Operation.submits job) p h = submit-Stays host job p h
operate-Stays host (Operation.reads i message) p h = read_slot-Stays host i message p h
operate-Stays host (Operation.loses i) p h = lose-Stays host i p h
operate-Stays host (Operation.sends e fault) p h = send_run-Stays host e fault p h
operate-Stays host (Operation.watches beat_rate now read) p h =
    watch_heartbeats-Stays beat_rate now read p h

-- Operations on a started pool leave it started.
pub operate_all-Stays :
    (host : Host) (os : List Operation) (p : SkeletonPool)
    → p.started ≡ true
    → Stays (operate_all host os p)
unfolding operate_all
operate_all-Stays host [] p h = h
operate_all-Stays host (o ∷ os) p h =
    Stays-then (operate host o p) (operate_all host os) (operate-Stays host o p h)
      (operate_all-Stays host os)
