-- ===== src/Control/Safety.antt =====
-- The assertions of `apply` in reaper/control.py never fail, for any history of the pool.
use reaper.Base.{
  ℕ, suc, ◌+◌, ◌≤◌, ◌<◌, String, ◌≡◌, refl, ap, Bool, true, false, List, [], ◌∷◌, arith, contains,
  count, count-absent, All, one, string_eq, nat_eq, ◌==◌, length, Bool-cases, Option-cases, inl,
  inr, if_elim, ◌||◌, leb, IsDistinct, beq_refl, length-dedup, length-append, truthy,
}
use reaper.Base.Dict.{Dict, values}
use reaper.Control.Types.{EventKind, ControlSlot, ControlEvent, ReaperCore}
use reaper.Control.Core.{jobs, is_running}
use reaper.Control.Apply.{
  handle, transition, gens, slot_gens, assert_invariants, all_true, same, applied, apply,
}
use reaper.Control.Effects.{IsSound}
use reaper.Control.Slots.{IsOrderly, IsNamedEvent, IsOrderly-handle, IsOrderly-dispatch}
use reaper.Control.Spawns.{IsMatched, IsIssued}
use reaper.Control.Methods.{IsIssued-handle, IsIssued-dispatch}
use reaper.Control.Jobs.{IsFree, accounted, accepted, transition-jobs}

pub record IsValid (c : ReaperCore) : Type 0 where
  pub orderly : IsOrderly c
  pub issued : IsIssued c
  pub once : IsDistinct (jobs c)

-- What the pool guarantees of the events that it delivers.
pub record IsDelivered (c : ReaperCore) (e : ControlEvent) : Type 0 where
  pub free : IsFree e.kind c e
  pub named : IsNamedEvent e.kind e
  pub matched : IsMatched e.kind e

-- None of the entries is above `n`.
all_true-below :
    (n : ℕ) (xs : List ℕ) → ((g : ℕ) → n < g → count g xs ≡ 0) → all_true (λ g. leb g n) xs ≡ true
all_true-below n [] h = refl
all_true-below n (x ∷ xs) h =
    ground (arith, h x, beq_refl x, all_true-below n xs (λ g p. omega (arith, h g p)))

all_true-keyed :
    (d : Dict ℕ ControlSlot)
    → All IsSound d
    → all_true (λ entry. entry.0 == entry.1.identity.fd) d ≡ true
all_true-keyed [] h = refl
all_true-keyed ((fd, s) ∷ d) h = ground (arith, h.0.keyed, all_true-keyed d h.1)

all_true-busy :
    (d : Dict ℕ ControlSlot)
    → All IsSound d
    → all_true (λ slot. same (truthy slot.job) (is_running slot.state)) (values d) ≡ true
all_true-busy [] h = refl
all_true-busy ((fd, s) ∷ d) h = ground (arith, h.0.busy, all_true-busy d h.1)

length-slot_gens : (d : Dict ℕ ControlSlot) → length (slot_gens (values d)) ≡ length d
length-slot_gens [] = refl
length-slot_gens ((fd, s) ∷ d) = ap suc (length-slot_gens d)

-- A valid core passes its assertions.
pub assert_invariants-IsValid : (c : ReaperCore) → IsValid c → assert_invariants c ≡ true
unfolding assert_invariants
assert_invariants-IsValid c v =
    rw
      (
        all_true-keyed c.slots v.orderly.sound,
        all_true-busy c.slots v.orderly.sound,
        all_true-below c.next_gen (gens c) v.issued.issued,
        length-dedup (jobs c) v.once,
        length-dedup (gens c) v.issued.fresh,
        length-append c.pending_spawns (slot_gens (values c.slots)),
        length-slot_gens c.slots,
      )
      (ground (arith, v.issued.fits, v.issued.drained))

one-le : (b : Bool) → one b ≤ 1
one-le true = omega arith
one-le false = omega arith

accepts :
    (j job : String) (xs : List String)
    → count j xs ≤ 1
    → contains xs job ≡ false
    → count j xs + count j (job ∷ []) ≤ 1
accepts j job xs h new = elim (Bool-cases (job == j)) [
  | inl same_job ↦ omega (
    arith,
    count-absent job xs new,
    ap (λ x. count x xs) ((string_eq.agrees job j).0 same_job),
    ap one same_job,
    one-le (job == j),
  )
  | inr other ↦ omega (arith, ap one other)
]

accepted-once :
    (j : String) (k : EventKind) (c : ReaperCore) (e : ControlEvent)
    → IsDistinct (jobs c)
    → count j (jobs c) + count j (accepted k c e) ≤ 1
accepted-once j EventKind.submit c e h = elim (Option-cases e.job) [
  | inl n ↦ rw (n, accepted) (omega (arith, h j))
  | inr (job, q) ↦
      rw (q, accepted)
        (if_elim (λ xs. count j (jobs c) + count j xs ≤ 1) (c.closing || contains (jobs c) job) _ _
          (λ _. omega (arith, h j)) λ new. accepts j job (jobs c) (h j) (ground (arith, new)))
]
accepted-once j k c e h = omega (arith, h j)

pub transition-IsValid :
    (c : ReaperCore) (e : ControlEvent) → IsValid c → IsDelivered c e → IsValid (transition c e).0
unfolding transition
transition-IsValid c e v d =
    let orderly = IsOrderly-handle e.kind c e v.orderly d.named in
    record {
      orderly = IsOrderly-dispatch (handle e.kind c e).0 orderly;
      issued =
          IsIssued-dispatch (handle e.kind c e).0 (IsIssued-handle e.kind c e v.issued d.matched);
      once = λ j. omega (
        arith,
        accepted-once j e.kind c e v.once,
        transition-jobs j c e v.orderly.sound d.free orderly.sound orderly.named,
      );
    }

-- A valid core takes every event that the pool delivers: `apply` returns its transition's core and
-- effects, none of the seven assertions fails, and the new core is valid again.
pub apply-IsValid :
    (c : ReaperCore) (e : ControlEvent)
    → IsValid c
    → IsDelivered c e
    → (apply c e ≡ applied (transition c e).0 (transition c e).1) × IsValid (transition c e).0
unfolding apply
apply-IsValid c e v d =
    let next = transition-IsValid c e v d in
    (rw (assert_invariants-IsValid (transition c e).0 next), next)

-- In a valid core that takes a delivered event, every job that was held or has just been accepted is
-- afterwards either still held or answered by exactly one effect: none is lost, none answered twice.
pub transition-conserves :
    (j : String) (c : ReaperCore) (e : ControlEvent)
    → IsValid c
    → IsDelivered c e
    → accounted j (transition c e) ≡ count j (jobs c) + count j (accepted e.kind c e)
transition-conserves j c e v d =
    let orderly = IsOrderly-handle e.kind c e v.orderly d.named in
    transition-jobs j c e v.orderly.sound d.free orderly.sound orderly.named
