-- ===== src/Pool/Runs.antt =====
-- Every operation of SkeletonPool in reaper/pool.py that speaks to the core ends, and leaves a pool that
-- serves.
use reaper.Base.{
  ℕ, ◌≡◌, refl, String, Bool, true, false, Option, none, some, List, [], ◌∷◌, arith, nat_eq,
  string_eq, Option-cases, inl, inr, if_elim, ◌||◌, not, ◌<◌, leb,
}
use reaper.Base.Dict.{get, values}
use reaper.Control.Types.{SkeletonId, EventKind, ControlEffect}
use reaper.Control.Core.{identity_eq}
use reaper.Pool.Futures.{job_of}
use reaper.Pool.Recovery.{Recovery, became_ready}
use reaper.Pool.Slots.{Slot, SkeletonPool, live_slot, slot_for}
use reaper.Pool.Drive.{Host}
use reaper.Pool.Operations.{
  Incoming, ready, healthy, lifecycle, state, other, gone, service_fault, fatal, result, unknown,
  perform, plain_event, slot_event, result_event, failed_event, recovering_after, is_stale,
  with_result, on_message, read_slot, recover_after, SendFault, sent_to, send_run,
}
use reaper.Pool.Teardown.{receive_all, end_each}
use reaper.Pool.Watching.{Reading, watched, watch_slot, watch_each, watch_heartbeats}
use reaper.Pool.Heartbeat.{HeartbeatWatch, observe}
use reaper.Pool.Carries.{IsServed}
use reaper.Pool.Serving.{IsServing, Serves}
use reaper.Pool.Serves.{
  Serving-beside, Serves-then, Serving-recovering, Serving-write, perform-calm, lose-Serves,
}

became_ready-closing : (r : Recovery) → (became_ready r).closing ≡ r.closing
unfolding became_ready
became_ready-closing r = refl

module _ (host : Host) (served : IsServed host) {n : ℕ} {seen : List String} {closed : Bool} where
  on_message-Serves :
      (message : Incoming) (s : Slot) (p : SkeletonPool)
      → IsServing n seen closed p
      → Serves n seen closed (on_message host message s p)
  unfolding on_message
  on_message-Serves ready s p d =
      perform-calm host served (slot_event EventKind.ready s.identity) _
        (record { free = tt; named = tt; matched = tt }) refl refl refl
        (Serving-beside p _ refl refl refl refl (became_ready-closing p.recovery) d)
  on_message-Serves healthy s p d =
      Serving-write _ _ (Serving-beside p _ refl refl refl refl refl d)
  on_message-Serves lifecycle s p d = d
  on_message-Serves state s p d = d
  on_message-Serves other s p d = d
  on_message-Serves gone s p d = lose-Serves host served s.identity p d
  on_message-Serves (service_fault kind text trace code) s p d =
      Serving-write _ _ (Serving-beside p _ refl refl refl refl refl d)
  on_message-Serves (fatal kind text trace) s p d = Serving-write p _ d
  on_message-Serves (result job ok note) s p d =
      if_elim (Serves n seen closed) (is_stale s job) _ _ (λ _. d)
        λ _.
          perform-calm host served (result_event s.identity job ok) (with_result p job note)
            (record { free = tt; named = tt; matched = tt }) refl refl refl
            (Serving-beside p _ refl refl refl refl refl d)
  on_message-Serves (unknown op) s p d = lose-Serves host served s.identity _ (Serving-write p _ d)

  pub read_slot-Serves :
      (i : SkeletonId) (message : Incoming) (p : SkeletonPool)
      → IsServing n seen closed p
      → Serves n seen closed (read_slot host i message p)
  unfolding read_slot
  read_slot-Serves i message p d = elim (Option-cases (live_slot p i)) [
    | inl absent ↦ rw (absent, read_slot) d
    | inr (s, f) ↦ rw (f, read_slot) (on_message-Serves message s p d)
  ]

  pub receive_all-Serves :
      (arrivals : List (SkeletonId × Incoming)) (p : SkeletonPool)
      → IsServing n seen closed p
      → Serves n seen closed (receive_all host arrivals p)
  unfolding receive_all
  receive_all-Serves [] p d = d
  receive_all-Serves ((i, message) ∷ rest) p d =
      Serves-then (read_slot host i message p) (receive_all host rest)
        (read_slot-Serves i message p d) (receive_all-Serves rest)

  pub end_each-Serves :
      (slots : List Slot) (p : SkeletonPool)
      → IsServing n seen closed p
      → Serves n seen closed (end_each host slots p)
  unfolding end_each
  end_each-Serves [] p d = d
  end_each-Serves (s ∷ rest) p d =
      Serves-then (perform host (slot_event EventKind.eof s.identity) p) (end_each host rest)
        (perform-calm host served (slot_event EventKind.eof s.identity) p
          (record { free = tt; named = tt; matched = tt }) refl refl refl d)
        (end_each-Serves rest)

  pub recover_after-Serves :
      (p : SkeletonPool) → IsServing n seen closed p → Serves n seen closed (recover_after host p)
  unfolding recover_after
  recover_after-Serves p d =
      if_elim (Serves n seen closed) p.recovery.closing _ _
        (λ _. Serving-beside p _ refl refl refl refl refl d)
        λ _.
          perform-calm host served (plain_event EventKind.recover) _
            (record { free = tt; named = tt; matched = tt }) refl refl refl
            (Serving-beside p _ refl refl refl refl refl d)

  sent_to-Serves :
      (e : ControlEffect) (fault : Option SendFault) (s : Slot) (p : SkeletonPool)
      → IsServing n seen closed p
      → Serves n seen closed (sent_to host e fault s p)
  sent_to-Serves e none s p d = Serving-write p _ d
  sent_to-Serves e (some (kind, text, trace)) s p d =
      Serves-then _ (recovering_after false)
        (perform-calm host served (failed_event s.identity e.job) _
          (record { free = tt; named = tt; matched = tt }) refl refl refl (Serving-write p _ d))
        (Serving-recovering false)

  pub send_run-Serves :
      (e : ControlEffect) (fault : Option SendFault) (p : SkeletonPool)
      → IsServing n seen closed p
      → Serves n seen closed (send_run host e fault p)
  unfolding send_run
  send_run-Serves e fault p d = elim (Option-cases (slot_for p e.identity)) [
    | inl absent ↦ rw (absent, send_run) d
    | inr (s, f) ↦ elim (Option-cases (get p.futures.jobs (job_of e))) [
      | inl over ↦ rw (f, over, send_run) d
      | inr (done, h) ↦ rw (f, h, send_run) (sent_to-Serves e fault s p d)
    ]
  ]

module _ {n : ℕ} {seen : List String} {closed : Bool} where
  watched-Serving :
      (now : ℕ) (read : Reading) (s : Slot) (told : HeartbeatWatch × Bool) (p : SkeletonPool)
      → IsServing n seen closed p
      → IsServing n seen closed (watched now read s told p)
  watched-Serving now read s (watch, true) p d = Serving-write p _ d
  watched-Serving now read s (watch, false) p d =
      Serving-beside _ _ refl refl refl refl refl (Serving-write p _ d)

  watch_slot-Serves :
      (timeout now : ℕ) (read : Reading) (s : Slot) (p : SkeletonPool)
      → 0 < timeout
      → IsServing n seen closed p
      → Serves n seen closed (watch_slot timeout now read s p)
  unfolding watch_slot observe
  watch_slot-Serves timeout now read s p pos d =
      if_elim (Serves n seen closed) (not s.beat_fd) _ _ (λ _. d)
        λ _.
          let open_ : leb timeout 0 ≡ false = ground (arith, pos) in
          rw open_ (watched-Serving now read s _ p d)

  watch_each-Serves :
      (timeout now : ℕ) (read : Slot → Reading) (slots : List Slot) (p : SkeletonPool)
      → 0 < timeout
      → IsServing n seen closed p
      → Serves n seen closed (watch_each timeout now read slots p)
  unfolding watch_each
  watch_each-Serves timeout now read [] p pos d = d
  watch_each-Serves timeout now read (s ∷ rest) p pos d =
      Serves-then (watch_slot timeout now (read s) s p) (watch_each timeout now read rest)
        (watch_slot-Serves timeout now (read s) s p pos d)
        (λ q. watch_each-Serves timeout now read rest q pos)

  pub watch_heartbeats-Serves :
      (beat_rate now : ℕ) (read : Slot → Reading) (p : SkeletonPool)
      → IsServing n seen closed p
      → Serves n seen closed (watch_heartbeats beat_rate now read p)
  unfolding watch_heartbeats
  watch_heartbeats-Serves beat_rate now read p d =
      if_elim (Serves n seen closed) (not p.started || p.recovery.closing) _ _ (λ _. d)
        (λ _. watch_each-Serves _ now read (values p.slots) p (omega arith) d)
