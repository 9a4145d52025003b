-- ===== src/Pool/Lives.antt =====
-- The life of SkeletonPool in reaper/pool.py: any operations on a new pool, and then its close.
use reaper.Base.{
  ℕ, suc, ◌+◌, ◌≤◌, ◌≡◌, refl, subst, ap, String, true, false, Option, none, List, [], ◌∷◌, ◌++◌,
  arith, count, ◌==◌, string_eq, nat_eq, inl, inr, one, beq_refl, All, if_elim, not,
}
use reaper.Base.Dict.{values}
use reaper.Control.Types.{SkeletonId, EventKind, ControlEffect}
use reaper.Control.Core.{init, empty_core}
use reaper.Control.Closing.{transition-close}
use reaper.Control.Closed.{Reached-no_jobs}
use reaper.Control.Histories.{begin}
use reaper.Pool.Answers.{completions}
use reaper.Pool.Recovery.{absent}
use reaper.Pool.Slots.{Slot, SkeletonPool}
use reaper.Pool.Drive.{Host, Driven, driven, raised, unfinished}
use reaper.Pool.Operations.{
  submit_started, left_by, Incoming, SendFault, ◌>>=◌, perform, plain_event, lose, read_slot,
  recover_after, send_run,
}
use reaper.Pool.Teardown.{receive_all, end_each, closing_down, wind_down, close, shut_down}
use reaper.Pool.Watching.{Reading, watch_heartbeats}
use reaper.Pool.Carries.{IsServed}
use reaper.Pool.Serving.{IsServing, Serves, Stands, perform-Serves}
use reaper.Pool.Serves.{Serves-then, perform-calm, lose-Serves}
use reaper.Pool.Runs.{
  read_slot-Serves, recover_after-Serves, send_run-Serves, receive_all-Serves, end_each-Serves,
  watch_heartbeats-Serves,
}
use reaper.Pool.Submits.{submit_started-Takes}

-- An operation of a pool that has started, other than its close.
pub data Operation : Type 0 where
  recovers : Operation
  submits : String → Operation
  reads : SkeletonId → Incoming → Operation
  loses : SkeletonId → Operation
  sends : ControlEffect → Option SendFault → Operation
  watches : ℕ → ℕ → (Slot → Reading) → Operation

unfoldable pub operate : Host → Operation → SkeletonPool → Driven
unfolding submit_started read_slot lose recover_after send_run watch_heartbeats
operate host Operation.recovers p = recover_after host p
operate host (Operation.submits job) p = left_by (submit_started host job p)
operate host (Operation.reads i message) p = read_slot host i message p
operate host (Operation.loses i) p = lose host i p
operate host (Operation.sends e fault) p = send_run host e fault p
operate host (Operation.watches beat_rate now read) p = watch_heartbeats beat_rate now read p

unfoldable pub operate_all : Host → List Operation → SkeletonPool → Driven
unfolding operate
operate_all host [] p = driven p
operate_all host (o ∷ os) p = operate host o p >>= operate_all host os

abbrev pub asked_of : Operation → List String
asked_of (Operation.submits job) = job ∷ []
asked_of o = []

-- The jobs that the operations submit.
abbrev pub asked : List Operation → List String
asked [] = []
asked (o ∷ os) = asked_of o ++ asked os

-- SkeletonPool(target), with the rounds and the queue limit that `from_settings` gives it.
abbrev pub new_pool : ℕ → ℕ → ℕ → SkeletonPool
new_pool target rounds queue_limit = record {
  core = empty_core target;
  slots = [];
  retired_slots = [];
  futures = record { jobs = []; results = []; completed = [] };
  recovery = record {
    closing = false;
    pre_ready_failures = 0;
    startup_error = none;
    recovery_task = absent;
  };
  circuit = record {
    target = target;
    service_failure_rounds = rounds;
    service_fault = "";
    service_fault_slots = [];
    service_fault_round = 0;
    startup_error = none;
    failure_event = false;
    failure_errors = [];
  };
  calls = [];
  started = false;
  queue_limit = queue_limit;
}

pub new_pool-IsServing :
    (n rounds queue_limit : ℕ) → IsServing (suc n) [] false (new_pool (suc n) rounds queue_limit)
unfolding init
new_pool-IsServing n rounds queue_limit = record {
  events = [];
  effects = [];
  history = begin (empty_core (suc n)) refl;
  mirrored = record { keyed = tt; sole = λ k. omega arith; mirrors = λ i. omega arith };
  kept = λ j named. inl (refl, record { absent = refl; never = refl }, refl);
  shut = λ h. cc;
  stays = refl;
}

-- Some of the jobs in hand were taken, each at most as often as `most` says.
abbrev pub ServesSome : ℕ → (String → ℕ) → Driven → Type 0
ServesSome n most r =
    (seen : List String) × ((j : String) → count j seen ≤ most j) × Serves n seen false r

pub ServesSome-weaken :
    (n : ℕ) (most more : String → ℕ) (r : Driven)
    → ((j : String) → most j ≤ more j)
    → ServesSome n most r
    → ServesSome n more r
ServesSome-weaken n most more r h s = (s.0, λ j. omega (arith, h j, s.1 j), s.2)

module _ (host : Host) (served : IsServed host) {n : ℕ} where
  ServesSome-then :
      {most : String → ℕ} (r : Driven) (f : SkeletonPool → Driven) (seen : List String)
      → Serves n seen false r
      → ((q : SkeletonPool) → IsServing n seen false q → ServesSome n most (f q))
      → ServesSome n most (r >>= f)
  ServesSome-then (driven q) f seen d k = k q d
  ServesSome-then (raised q) f seen d k = absurd d
  ServesSome-then (unfinished q es) f seen d k = absurd d

  -- Operations that submit new jobs, each once.
  pub operate_all-Serves :
      (os : List Operation) (seen : List String) (p : SkeletonPool)
      → All (λ job. ("" == job) ≡ false) (asked os)
      → ((j : String) → count j (asked os) + count j seen ≤ 1)
      → IsServing n seen false p
      → ServesSome n (λ j. count j (asked os) + count j seen) (operate_all host os p)
  unfolding operate_all operate
  operate_all-Serves [] seen p named once d = (seen, λ j. omega arith, d)
  operate_all-Serves (Operation.recovers ∷ os) seen p named once d =
      ServesSome-then (recover_after host p) (operate_all host os) seen
        (recover_after-Serves host served p d) (λ q. operate_all-Serves os seen q named once)
  operate_all-Serves (Operation.reads i message ∷ os) seen p named once d =
      ServesSome-then (read_slot host i message p) (operate_all host os) seen
        (read_slot-Serves host served i message p d) (λ q. operate_all-Serves os seen q named once)
  operate_all-Serves (Operation.loses i ∷ os) seen p named once d =
      ServesSome-then (lose host i p) (operate_all host os) seen (lose-Serves host served i p d)
        (λ q. operate_all-Serves os seen q named once)
  operate_all-Serves (Operation.sends e fault ∷ os) seen p named once d =
      ServesSome-then (send_run host e fault p) (operate_all host os) seen
        (send_run-Serves host served e fault p d) (λ q. operate_all-Serves os seen q named once)
  operate_all-Serves (Operation.watches beat_rate now read ∷ os) seen p named once d =
      ServesSome-then (watch_heartbeats beat_rate now read p) (operate_all host os) seen
        (watch_heartbeats-Serves beat_rate now read p d)
        (λ q. operate_all-Serves os seen q named once)
  operate_all-Serves (Operation.submits job ∷ os) seen p named once d =
      elim (submit_started-Takes host served job named.0
        (omega (arith, once job, ap one (beq_refl job))) p d) [
          | inl refused ↦
              ServesSome-then (left_by (submit_started host job p)) (operate_all host os) seen
                refused
                (λ q sound.
                  ServesSome-weaken _ (λ j. count j (asked os) + count j seen) _ _
                    (λ j. omega arith)
                    (operate_all-Serves os seen q named.1 (λ j. omega (arith, once j)) sound))
          | inr taken ↦
              ServesSome-then (left_by (submit_started host job p)) (operate_all host os)
                (job ∷ seen) taken
                (λ q sound.
                  ServesSome-weaken _ (λ j. count j (asked os) + count j (job ∷ seen)) _ _
                    (λ j. omega arith)
                    (operate_all-Serves os (job ∷ seen) q named.1 (λ j. omega (arith, once j))
                      sound))
        ]

  -- The end of an open pool, up to the clearing of its tables.
  pub wind_down-Serves :
      (arrivals : List (SkeletonId × Incoming)) (seen : List String) (p : SkeletonPool)
      → IsServing n seen false p
      → Serves n seen true (wind_down host arrivals p)
  unfolding wind_down
  wind_down-Serves arrivals seen p d =
      Serves-then _ (λ q. end_each host (values q.slots) q)
        (Serves-then _ (perform host (plain_event EventKind.deadline))
          (Serves-then (perform host (plain_event EventKind.close) (closing_down p))
            (receive_all host arrivals)
            (perform-Serves host served (plain_event EventKind.close) (closing_down p) d.history
              d.mirrored (record { free = tt; named = tt; matched = tt }) refl seen
              (λ j named. subst (Stands j (count j seen) p.futures) (omega arith) (d.kept j named))
              (λ h. refl) true
              (transition-close p.core (plain_event EventKind.close) refl d.stays).0.closing)
            (receive_all-Serves host served arrivals))
          (λ q.
            perform-calm host served (plain_event EventKind.deadline) q
              (record { free = tt; named = tt; matched = tt }) refl refl refl))
        (λ q. end_each-Serves host served (values q.slots) q)

-- What a closed pool is: no slots and no jobs are left, and the job has been answered once.
abbrev pub Shuts : String → Driven → Type 0
Shuts j (driven q) =
    (q.slots ≡ []) × (q.futures.jobs ≡ []) × (q.started ≡ false) × (completions j q.futures ≡ 1)
Shuts j (raised q) = ⊥
Shuts j (unfinished q es) = ⊥

answered :
    {n : ℕ} {seen : List String} (q : SkeletonPool) (j : String)
    → IsServing n seen true q
    → ("" == j) ≡ false
    → 1 ≤ count j seen
    → completions j q.futures ≡ 1
answered q j d named asked_for = elim (d.kept j named) [
  | inl (a, u, z) ↦ absurd (omega (arith, a, asked_for))
  | inr (inl (a, o, z)) ↦
      absurd (omega (arith, z, ap (count j) (Reached-no_jobs d.history d.stays)))
  | inr (inr (a, o, z)) ↦ o.once
]

Shuts-shut_down :
    (n : ℕ) (seen : List String) (j : String) (r : Driven)
    → ("" == j) ≡ false
    → 1 ≤ count j seen
    → Serves n seen true r
    → Shuts j (r >>= shut_down)
Shuts-shut_down n seen j (driven q) named asked_for d =
    (refl, refl, refl, answered q j d named asked_for)
Shuts-shut_down n seen j (raised q) named asked_for d = d
Shuts-shut_down n seen j (unfinished q es) named asked_for d = d

-- The close of a started, open pool that serves, with a system that serves it and so lets the parent kill
-- its children's groups, ends without an exception, whatever messages still arrive: no slot and no job is left, and each job that the pool ever took, with
-- an id that is not empty, has been answered exactly once.
pub close-Shuts :
    (host : Host)
    → IsServed host
    → {n : ℕ} (arrivals : List (SkeletonId × Incoming)) (seen : List String) (p : SkeletonPool)
    → IsServing n seen false p
    → p.started ≡ true
    → (j : String) → ("" == j) ≡ false
    → 1 ≤ count j seen
    → Shuts j (close host arrivals p)
unfolding close
close-Shuts host served {n} arrivals seen p d on j named asked_for =
    if_elim (Shuts j) (not p.started) _ _ (λ off. absurd (ground arith))
      λ _.
        Shuts-shut_down n seen j (wind_down host arrivals p) named asked_for
          (wind_down-Serves host served arrivals seen p d)
