-- ===== src/Control/Core.antt =====
-- ReaperCore of reaper/control.py: one function for each method. A method that mutates `self`
-- returns the new core beside its effects.
use reaper.Base.{
  ℕ, suc, zero, ◌+◌, String, Bool, true, false, not, ◌&&◌, Option, none, some, List, [], ◌∷◌, ◌++◌,
  if◌then◌else◌, ◌==◌, ltb, truthy, contains, discard_first, length, string_eq, nat_eq, BoolEq, ◌≡◌,
  ◌↔◌, arith,
}
use reaper.Base.Dict.{Dict, get, put, remove, values}
use reaper.Control.Types.{
  SkeletonState, SkeletonId, EffectKind, FailureReason, ControlEvent, ControlEffect, ControlSlot,
  ReaperCore,
}

abbrev pub is_starting : SkeletonState → Bool
is_starting SkeletonState.starting = true
is_starting _ = false

abbrev pub is_idle : SkeletonState → Bool
is_idle SkeletonState.idle = true
is_idle _ = false

abbrev pub is_running : SkeletonState → Bool
is_running SkeletonState.running = true
is_running _ = false

abbrev pub same_identity : SkeletonId → SkeletonId → Bool
same_identity a b = a.fd == b.fd && a.gen == b.gen

pub same_identity-agrees : (a b : SkeletonId) → (same_identity a b ≡ true) ↔ (a ≡ b)
same_identity-agrees a b = ground arith

-- The equality of identities that keys and counts go by.
instance abbrev pub identity_eq : BoolEq SkeletonId
identity_eq = record { test = same_identity; agrees = same_identity-agrees }

abbrev pub empty_core : ℕ → ReaperCore
empty_core target = record {
  target = target;
  closing = false;
  slots = [];
  pending_spawns = [];
  queue = [];
  done = [];
  failed = [];
  next_gen = 0;
}

-- ReaperCore(target); `none` is the ValueError.
unfoldable pub init : ℕ → Option ReaperCore
init zero = none
init (suc n) = some (empty_core (suc n))

abbrev pub Step : Type 0
Step = ReaperCore × List ControlEffect

-- The four shapes of effect that the methods build.
abbrev pub to_slot : EffectKind → SkeletonId → ControlEffect
to_slot k i = record { kind = k; identity = some i; gen = none; job = none; reason = none }

abbrev pub spawn_of : ℕ → ControlEffect
spawn_of g = record {
  kind = EffectKind.spawn;
  identity = none;
  gen = some g;
  job = none;
  reason = none;
}

abbrev pub resolve_of : String → ControlEffect
resolve_of j = record {
  kind = EffectKind.resolve;
  identity = none;
  gen = none;
  job = some j;
  reason = none;
}

abbrev pub fail_of : String → FailureReason → ControlEffect
fail_of j r = record {
  kind = EffectKind.fail;
  identity = none;
  gen = none;
  job = some j;
  reason = some r;
}

abbrev pub run_of : SkeletonId → String → ControlEffect
run_of i j = record {
  kind = EffectKind.send_run;
  identity = some i;
  gen = none;
  job = some j;
  reason = none;
}

unfoldable pub find : ReaperCore → Option SkeletonId → Option ControlSlot
find c none = none
find c (some identity) = elim (get c.slots identity.fd) [
  | none ↦ none
  | some slot ↦ if same_identity slot.identity identity then some slot else none
]

-- The rounds of `while not self.closing and total < self.target`, on fuel.
unfoldable pub fill_loop : ℕ → ℕ → ReaperCore → Step
fill_loop zero total c = (c, [])
fill_loop (suc fuel) total c = elim (not c.closing && ltb total c.target) [
  | false ↦ (c, [])
  | true ↦
      let next = suc c.next_gen in
      let grown = record c { next_gen = next; pending_spawns = c.pending_spawns ++ next ∷ [] } in
      let (c', effects) = fill_loop fuel (suc total) grown in (c', spawn_of next ∷ effects)
]

unfoldable pub fill : ReaperCore → Step
unfolding fill_loop
fill c = fill_loop c.target (length c.slots + length c.pending_spawns) c

unfoldable pub discard : SkeletonId → List ControlEffect
discard identity =
    to_slot EffectKind.drop identity
    ∷ to_slot EffectKind.close_control identity
    ∷ to_slot EffectKind.close_death identity
    ∷ to_slot EffectKind.reap identity
    ∷ []

-- The core with the pending spawn `gen` taken over by a starting slot.
abbrev pub admitted : ReaperCore → ℕ → SkeletonId → ReaperCore
admitted c gen identity = record c {
  pending_spawns = discard_first gen c.pending_spawns;
  slots =
      put c.slots identity.fd
        (record { identity = identity; state = SkeletonState.starting; job = none });
}

-- `spawned` once the event is known to carry both a generation and an identity.
unfoldable pub register : ReaperCore → ℕ → SkeletonId → Step
unfolding discard
register c gen identity =
    if not (contains c.pending_spawns gen)
    then (c, discard identity)
    else if c.closing
    then (record c { pending_spawns = discard_first gen c.pending_spawns }, discard identity)
    else fill (admitted c gen identity)

unfoldable pub spawned : ReaperCore → ControlEvent → Step
unfolding register
spawned c event = elim event.gen [
  | none ↦ (c, [])
  | some gen ↦ elim event.identity [ none ↦ (c, []) | some identity ↦ register c gen identity ]
]

unfoldable pub spawn_failed : ReaperCore → ControlEvent → Step
spawn_failed c event = elim event.gen [
  | none ↦ (c, [])
  | some gen ↦
      if contains c.pending_spawns gen
      then (record c { pending_spawns = discard_first gen c.pending_spawns }, [])
      else (c, [])
]

unfoldable pub ready : ReaperCore → ControlEvent → Step
unfolding find
ready c event = elim (find c event.identity) [
  | none ↦ (c, [])
  | some slot ↦ if not (is_starting slot.state) then (c, []) else (
    record c { slots = put c.slots slot.identity.fd (record slot { state = SkeletonState.idle }) },
    [],
  )
]

-- The truthy jobs of the slots.
abbrev pub slot_job : ControlSlot → List String
slot_job slot = elim slot.job [ none ↦ [] | some job ↦ if truthy (some job) then job ∷ [] else [] ]

abbrev pub slot_jobs : List ControlSlot → List String
slot_jobs [] = []
slot_jobs (slot ∷ slots) = slot_job slot ++ slot_jobs slots

-- list(self.queue) and the truthy jobs of the slots
abbrev pub jobs : ReaperCore → List String
jobs c = c.queue ++ slot_jobs (values c.slots)

unfoldable pub submit : ReaperCore → ControlEvent → Step
submit c event = elim event.job [
  | none ↦ (c, [])
  | some job ↦
      if c.closing
      then (c, [])
      else if contains (jobs c) job
      then (c, [])
      else (record c { queue = c.queue ++ job ∷ [] }, [])
]

-- `slot.job != event.job or event.job is None`, the other way round
abbrev pub owns : ControlSlot → Option String → Bool
owns slot none = false
owns slot (some job) = elim slot.job [ none ↦ false | some held ↦ held == job ]

abbrev pub answer : Bool → String → ControlEffect
answer true job = resolve_of job
answer false job = fail_of job FailureReason.worker_error

unfoldable pub result : ReaperCore → ControlEvent → Step
unfolding find
result c event = elim (find c event.identity) [
  | none ↦ (c, [])
  | some slot ↦ elim event.job [
    | none ↦ (c, [])
    | some job ↦
        if not (is_running slot.state)
        then (c, [])
        else if not (owns slot (some job))
        then (c, [])
        else (
          record c {
            slots =
                put c.slots slot.identity.fd
                  (record slot { state = SkeletonState.idle; job = none });
          },
          answer event.ok job ∷ [],
        )
  ]
]

-- One FAIL for a slot that holds a job, none otherwise.
abbrev pub fail_jobs : List String → FailureReason → List ControlEffect
fail_jobs [] reason = []
fail_jobs (job ∷ rest) reason = fail_of job reason ∷ fail_jobs rest reason

unfoldable pub lost : ReaperCore → ControlEvent → Step
unfolding find discard
lost c event = elim (find c event.identity) [
  | none ↦ (c, [])
  | some slot ↦ (
    record c { slots = remove c.slots slot.identity.fd },
    discard slot.identity ++ fail_jobs (slot_job slot) FailureReason.worker_died,
  )
]

-- The loop of `close` over the slots, which writes each slot back under its own key.
unfoldable pub stop_slots : Dict ℕ ControlSlot → Dict ℕ ControlSlot × List ControlEffect
stop_slots [] = ([], [])
stop_slots ((fd, slot) ∷ rest) =
    let (stopped, effects) = stop_slots rest in
    (
      (fd, record slot { state = SkeletonState.stopping; job = none }) ∷ stopped,
      fail_jobs (slot_job slot) FailureReason.closed
          ++ to_slot EffectKind.send_stop slot.identity ∷ effects,
    )

unfoldable pub close : ReaperCore → Step
unfolding stop_slots
close c =
    if c.closing
    then (c, [])
    else let (stopped, effects) = stop_slots c.slots in
      (
        record c { closing = true; queue = []; pending_spawns = []; slots = stopped },
        fail_jobs c.queue FailureReason.closed ++ effects,
      )

unfoldable pub kill_slots : List ControlSlot → List ControlEffect
kill_slots [] = []
kill_slots (slot ∷ rest) = to_slot EffectKind.kill slot.identity ∷ kill_slots rest

unfoldable pub deadline : ReaperCore → Step
unfolding kill_slots
deadline c = if not c.closing then (c, []) else (c, kill_slots (values c.slots))

-- The loop of `dispatch` over the slots: each idle slot takes the head of the queue and is written
-- back under its own key.
unfoldable pub dispatch_slots :
    Dict ℕ ControlSlot → List String → Dict ℕ ControlSlot × List String × List ControlEffect
dispatch_slots slots [] = (slots, [], [])
dispatch_slots [] (job ∷ queue) = ([], job ∷ queue, [])
dispatch_slots ((fd, slot) ∷ rest) (job ∷ queue) = elim (is_idle slot.state) [
  | false ↦
      let (rest', queue', effects) = dispatch_slots rest (job ∷ queue) in
      ((fd, slot) ∷ rest', queue', effects)
  | true ↦
      let (rest', queue', effects) = dispatch_slots rest queue in
      (
        (fd, record slot { state = SkeletonState.running; job = some job }) ∷ rest',
        queue',
        run_of slot.identity job ∷ effects,
      )
]

unfoldable pub dispatch : ReaperCore → Step
unfolding dispatch_slots
dispatch c =
    let (slots, queue, effects) = dispatch_slots c.slots c.queue in
    (record c { slots = slots; queue = queue }, effects)
