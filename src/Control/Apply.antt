-- ===== src/Control/Apply.antt =====
-- `apply` of reaper/control.py: the dispatch on the event's kind, and the assertions after it.
use reaper.Base.{
  ℕ, ◌+◌, Bool, true, false, not, ◌&&◌, ◌||◌, List, [], ◌∷◌, ◌++◌, if◌then◌else◌, ◌==◌, leb, truthy,
  dedup, length, string_eq, nat_eq,
}
use reaper.Base.Dict.{values}
use reaper.Control.Types.{EventKind, ControlEvent, ControlEffect, ControlSlot, ReaperCore}
use reaper.Control.Core.{
  Step, is_running, fill, spawned, spawn_failed, ready, submit, result, lost, close, deadline,
  dispatch, jobs,
}

-- `match event.kind` in `apply`.
unfoldable pub handle : EventKind → ReaperCore → ControlEvent → Step
handle EventKind.start c event = fill c
handle EventKind.recover c event = fill c
handle EventKind.spawned c event = spawned c event
handle EventKind.spawn_failed c event = spawn_failed c event
handle EventKind.ready c event = ready c event
handle EventKind.submit c event = submit c event
handle EventKind.result c event = result c event
handle EventKind.eof c event = lost c event
handle EventKind.send_failed c event = lost c event
handle EventKind.close c event = close c
handle EventKind.deadline c event = deadline c

abbrev pub slot_gens : List ControlSlot → List ℕ
slot_gens [] = []
slot_gens (slot ∷ slots) = slot.identity.gen ∷ slot_gens slots

-- The generations of the pending spawns and of the slots.
abbrev pub gens : ReaperCore → List ℕ
gens c = c.pending_spawns ++ slot_gens (values c.slots)

abbrev pub all_true {ℓ} : {A : Type ℓ} → (A → Bool) → List A → Bool
all_true test [] = true
all_true test (x ∷ xs) = test x && all_true test xs

abbrev pub same : Bool → Bool → Bool
same true b = b
same false b = not b

abbrev pub is_empty {ℓ} : {A : Type ℓ} → List A → Bool
is_empty [] = true
is_empty (x ∷ xs) = false

-- The seven assertions, in the source's order. `max(gens)` is at most `next_gen` when all are.
unfoldable pub assert_invariants : ReaperCore → Bool
assert_invariants c =
    leb (length c.slots + length c.pending_spawns) c.target
    && all_true (λ entry. entry.0 == entry.1.identity.fd) c.slots
    && all_true (λ slot. same (truthy slot.job) (is_running slot.state)) (values c.slots)
    && length (jobs c) == length (dedup (jobs c))
    && length (dedup (gens c)) == length c.pending_spawns + length c.slots
    && all_true (λ gen. leb gen c.next_gen) (gens c)
    && (not c.closing || is_empty c.pending_spawns)

-- What `apply` leaves: the effects, or the AssertionError of `assert_invariants` with the core as
-- it stands then.
pub data Outcome : Type 0 where
  applied : ReaperCore → List ControlEffect → Outcome
  assertion_error : ReaperCore → Outcome

-- The transition of `apply`, before its assertions.
unfoldable pub transition : ReaperCore → ControlEvent → Step
transition c event =
    let (handled, effects) = handle event.kind c event in
    let (dispatched, runs) = dispatch handled in (dispatched, effects ++ runs)

unfoldable pub apply : ReaperCore → ControlEvent → Outcome
apply c event =
    let (c', effects) = transition c event in
    if assert_invariants c' then applied c' effects else assertion_error c'
