-- ===== src/Control/Dispatch.antt =====
-- `dispatch` of reaper/control.py: jobs run in the order of the queue, and no slot stays idle beside
-- a waiting job.
use reaper.Base.{
  ℕ, String, ◌≡◌, refl, ap, Bool, false, not, ◌&&◌, ◌||◌, List, [], ◌∷◌, ◌++◌, arith, Bool-cases,
  inl, inr,
}
use reaper.Base.Dict.{Dict, values}
use reaper.Control.Types.{EffectKind, ControlEffect, ControlEvent, ControlSlot, ReaperCore}
use reaper.Control.Core.{is_idle, dispatch, dispatch_slots}
use reaper.Control.Apply.{is_empty, handle, transition}
use reaper.Control.Effects.{listed}

-- The jobs that a list of effects sends to slots.
abbrev pub sent_job : ControlEffect → List String
sent_job e = elim e.kind [ EffectKind.send_run ↦ listed e.job | _ ↦ [] ]

abbrev pub sent : List ControlEffect → List String
sent [] = []
sent (e ∷ es) = sent_job e ++ sent es

abbrev pub any_idle : List ControlSlot → Bool
any_idle [] = false
any_idle (s ∷ slots) = is_idle s.state || any_idle slots

sent-dispatch_slots :
    (d : Dict ℕ ControlSlot) (queue : List String)
    → sent (dispatch_slots d queue).2 ++ (dispatch_slots d queue).1 ≡ queue
unfolding dispatch_slots
sent-dispatch_slots [] [] = refl
sent-dispatch_slots (x ∷ d) [] = refl
sent-dispatch_slots [] (job ∷ queue) = refl
sent-dispatch_slots ((fd, s) ∷ d) (job ∷ queue) = elim (Bool-cases (is_idle s.state)) [
  | inl idle ↦ rw (idle, dispatch_slots) (ap (◌∷◌ job) (sent-dispatch_slots d queue))
  | inr other ↦ rw (other, dispatch_slots) (sent-dispatch_slots d (job ∷ queue))
]

-- The jobs sent, followed by the queue that is left, are the queue as it was.
pub sent-dispatch : (c : ReaperCore) → sent (dispatch c).1 ++ (dispatch c).0.queue ≡ c.queue
unfolding dispatch
sent-dispatch c = sent-dispatch_slots c.slots c.queue

idle-dispatch_slots :
    (d : Dict ℕ ControlSlot) (queue : List String)
    → (any_idle (values (dispatch_slots d queue).0) && not (is_empty (dispatch_slots d queue).1))
      ≡ false
unfolding dispatch_slots
idle-dispatch_slots [] [] = refl
idle-dispatch_slots (x ∷ d) [] = ground arith
idle-dispatch_slots [] (job ∷ queue) = refl
idle-dispatch_slots ((fd, s) ∷ d) (job ∷ queue) = elim (Bool-cases (is_idle s.state)) [
  | inl idle ↦ rw (idle, dispatch_slots) (idle-dispatch_slots d queue)
  | inr other ↦ rw (other, dispatch_slots) (ground (arith, idle-dispatch_slots d (job ∷ queue)))
]

-- After any event no slot is idle while a job waits.
pub transition-busy :
    (c : ReaperCore) (e : ControlEvent)
    → (any_idle (values (transition c e).0.slots) && not (is_empty (transition c e).0.queue))
      ≡ false
unfolding transition dispatch
transition-busy c e = idle-dispatch_slots (handle e.kind c e).0.slots (handle e.kind c e).0.queue
