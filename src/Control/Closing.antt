-- ===== src/Control/Closing.antt =====
-- CLOSE in reaper/control.py: every job is failed, every slot is told to stop, and from then on the
-- core neither spawns nor runs anything.
use reaper.Base.{
  ℕ, suc, zero, String, ◌≡◌, refl, ap, sym, subst, ◌∙◌, nat_eq, Bool, true, false, not, Option,
  some, List, [], ◌∷◌, ◌++◌, arith, Option-cases, inl, inr, All, All-append, if_elim, contains,
}
use reaper.Base.Dict.{Dict, values, All-get, All-remove}
use reaper.Control.Types.{
  EventKind, EffectKind, FailureReason, SkeletonState, SkeletonId, ControlEffect, ControlEvent,
  ControlSlot, ReaperCore,
}
use reaper.Control.Core.{
  Step, is_starting, is_running, to_slot, fail_jobs, slot_job, find, discard, fill, fill_loop,
  register, spawned, spawn_failed, ready, submit, result, lost, close, deadline, stop_slots,
  kill_slots, dispatch, dispatch_slots,
}
use mathlib.Core.Bool.{false≢true}
use mathlib.Core.List.{append-nil}
use reaper.Control.Apply.{handle, transition}
use reaper.Control.Invariant.{find-some}

-- The effects that start a process or a job.
abbrev pub starts_work : EffectKind → Bool
starts_work EffectKind.spawn = true
starts_work EffectKind.send_run = true
starts_work k = false

abbrev pub IsQuiet : ControlEffect → Type 0
IsQuiet e = starts_work e.kind ≡ false

abbrev pub IsStopping : ℕ × ControlSlot → Type 0
IsStopping entry = entry.1.state ≡ SkeletonState.stopping

pub record IsClosed (c : ReaperCore) : Type 0 where
  pub closing : c.closing ≡ true
  pub queue : c.queue ≡ []
  pub slots : All IsStopping c.slots

-- What a method leaves of a closed core.
abbrev pub IsSilent : Step → Type 0
IsSilent s = IsClosed s.0 × All IsQuiet s.1

IsQuiet-fail_jobs : (xs : List String) (r : FailureReason) → All IsQuiet (fail_jobs xs r)
IsQuiet-fail_jobs [] r = tt
IsQuiet-fail_jobs (x ∷ xs) r = (refl, IsQuiet-fail_jobs xs r)

IsQuiet-kill_slots : (xs : List ControlSlot) → All IsQuiet (kill_slots xs)
unfolding kill_slots
IsQuiet-kill_slots [] = tt
IsQuiet-kill_slots (x ∷ xs) = (refl, IsQuiet-kill_slots xs)

IsQuiet-discard : (i : SkeletonId) → All IsQuiet (discard i)
unfolding discard
IsQuiet-discard i = (refl, (refl, (refl, (refl, tt))))

stop_slots-IsStopping : (d : Dict ℕ ControlSlot) → All IsStopping (stop_slots d).0
unfolding stop_slots
stop_slots-IsStopping [] = tt
stop_slots-IsStopping ((fd, s) ∷ d) = (refl, stop_slots-IsStopping d)

IsQuiet-stop_slots : (d : Dict ℕ ControlSlot) → All IsQuiet (stop_slots d).1
unfolding stop_slots
IsQuiet-stop_slots [] = tt
IsQuiet-stop_slots ((fd, s) ∷ d) =
    All-append IsQuiet (fail_jobs (slot_job s) FailureReason.closed) _
      (IsQuiet-fail_jobs (slot_job s) FailureReason.closed) (refl, IsQuiet-stop_slots d)

-- `close` on an open core.
close-IsSilent : (c : ReaperCore) → c.closing ≡ false → IsSilent (close c)
unfolding close
close-IsSilent c open_ =
    if_elim IsSilent c.closing _ _ (λ shut. cc)
      λ _. (
        record { closing = refl; queue = refl; slots = stop_slots-IsStopping c.slots },
        All-append IsQuiet (fail_jobs c.queue FailureReason.closed) _
            (IsQuiet-fail_jobs c.queue FailureReason.closed) (IsQuiet-stop_slots c.slots),
      )

fill_loop-closed : (fuel n : ℕ) (c : ReaperCore) → c.closing ≡ true → fill_loop fuel n c ≡ (c, [])
unfolding fill_loop
fill_loop-closed zero n c shut = refl
fill_loop-closed (suc fuel) n c shut = ground arith

module _ (c : ReaperCore) (h : IsClosed c) where
  silent : IsSilent (c, [])
  silent = (h, tt)

  stopped :
      (i : Option SkeletonId) (s : ControlSlot)
      → find c i ≡ some s
      → s.state ≡ SkeletonState.stopping
  stopped i s f = All-get IsStopping c.slots s.identity.fd s h.slots (find-some c i s f).0

  IsSilent-fill : IsSilent (fill c)
  unfolding fill
  IsSilent-fill = subst IsSilent (sym (fill_loop-closed c.target _ c h.closing)) silent

  IsSilent-register : (g : ℕ) (i : SkeletonId) → IsSilent (register c g i)
  unfolding register
  IsSilent-register g i =
      if_elim IsSilent (not (contains c.pending_spawns g)) _ _ (λ _. (h, IsQuiet-discard i))
        λ _.
          if_elim IsSilent c.closing _ _
            (λ _.
              (record { closing = h.closing; queue = h.queue; slots = h.slots }, IsQuiet-discard i))
            (λ open_. absurd (cc))

  IsSilent-spawned : (e : ControlEvent) → IsSilent (spawned c e)
  unfolding spawned
  IsSilent-spawned e = elim (Option-cases e.gen) [
    | inl n ↦ rw (n, spawned) silent
    | inr (g, p) ↦ elim (Option-cases e.identity) [
      | inl n ↦ rw (p, n, spawned) silent
      | inr (i, q) ↦ rw (p, q, spawned) (IsSilent-register g i)
    ]
  ]

  IsSilent-spawn_failed : (e : ControlEvent) → IsSilent (spawn_failed c e)
  unfolding spawn_failed
  IsSilent-spawn_failed e = elim (Option-cases e.gen) [
    | inl n ↦ rw (n, spawn_failed) silent
    | inr (g, p) ↦
        rw (p, spawn_failed)
          (if_elim IsSilent (contains c.pending_spawns g) _ _
            (λ _. (record { closing = h.closing; queue = h.queue; slots = h.slots }, tt))
            (λ _. silent))
  ]

  IsSilent-ready : (e : ControlEvent) → IsSilent (ready c e)
  unfolding ready
  IsSilent-ready e = elim (Option-cases (find c e.identity)) [
    | inl f ↦ rw (f, ready) silent
    | inr (s, f) ↦
        rw (f, ready)
          (if_elim IsSilent (not (is_starting s.state)) _ _ (λ _. silent)
            λ starts.
              absurd
                (false≢true (sym starts ∙ ap (λ x. not (is_starting x)) (stopped e.identity s f))))
  ]

  IsSilent-result : (e : ControlEvent) → IsSilent (result c e)
  unfolding result
  IsSilent-result e = elim (Option-cases (find c e.identity)) [
    | inl f ↦ rw (f, result) silent
    | inr (s, f) ↦ elim (Option-cases e.job) [
      | inl n ↦ rw (f, n, result) silent
      | inr (job, q) ↦
          rw (f, q, result)
            (if_elim IsSilent (not (is_running s.state)) _ _ (λ _. silent)
              λ runs.
                absurd
                  (false≢true (sym runs ∙ ap (λ x. not (is_running x)) (stopped e.identity s f))))
    ]
  ]

  IsSilent-lost : (e : ControlEvent) → IsSilent (lost c e)
  unfolding lost
  IsSilent-lost e = elim (Option-cases (find c e.identity)) [
    | inl f ↦ rw (f, lost) silent
    | inr (s, f) ↦
        rw (f, lost)
          (
            record {
              closing = h.closing;
              queue = h.queue;
              slots = All-remove IsStopping c.slots s.identity.fd h.slots;
            },
            All-append IsQuiet (discard s.identity) _ (IsQuiet-discard s.identity)
                (IsQuiet-fail_jobs (slot_job s) FailureReason.worker_died),
          )
  ]

  IsSilent-submit : (e : ControlEvent) → IsSilent (submit c e)
  unfolding submit
  IsSilent-submit e = elim (Option-cases e.job) [
    | inl n ↦ rw (n, submit) silent
    | inr (job, q) ↦
        rw (q, submit) (if_elim IsSilent c.closing _ _ (λ _. silent) (λ open_. absurd (cc)))
  ]

  IsSilent-close : IsSilent (close c)
  unfolding close
  IsSilent-close = if_elim IsSilent c.closing _ _ (λ _. silent) (λ open_. absurd (cc))

  IsSilent-deadline : IsSilent (deadline c)
  unfolding deadline
  IsSilent-deadline =
      if_elim IsSilent (not c.closing) _ _ (λ _. silent)
        (λ _. (h, IsQuiet-kill_slots (values c.slots)))

IsSilent-handle :
    (c : ReaperCore) (k : EventKind) (e : ControlEvent) → IsClosed c → IsSilent (handle k c e)
unfolding handle
IsSilent-handle c EventKind.start e h = IsSilent-fill c h
IsSilent-handle c EventKind.recover e h = IsSilent-fill c h
IsSilent-handle c EventKind.spawned e h = IsSilent-spawned c h e
IsSilent-handle c EventKind.spawn_failed e h = IsSilent-spawn_failed c h e
IsSilent-handle c EventKind.ready e h = IsSilent-ready c h e
IsSilent-handle c EventKind.submit e h = IsSilent-submit c h e
IsSilent-handle c EventKind.result e h = IsSilent-result c h e
IsSilent-handle c EventKind.eof e h = IsSilent-lost c h e
IsSilent-handle c EventKind.send_failed e h = IsSilent-lost c h e
IsSilent-handle c EventKind.close e h = IsSilent-close c h
IsSilent-handle c EventKind.deadline e h = IsSilent-deadline c h

dispatch_slots-nil : (d : Dict ℕ ControlSlot) → dispatch_slots d [] ≡ (d, [], [])
unfolding dispatch_slots
dispatch_slots-nil [] = refl
dispatch_slots-nil (x ∷ d) = refl

dispatch-IsClosed : (c : ReaperCore) → IsClosed c → IsClosed (dispatch c).0 × ((dispatch c).1 ≡ [])
unfolding dispatch
dispatch-IsClosed c h =
    let still : dispatch_slots c.slots c.queue ≡ (c.slots, [], []) =
      ap (dispatch_slots c.slots) h.queue ∙ dispatch_slots-nil c.slots in
    rw still (record { closing = h.closing; queue = refl; slots = h.slots }, refl)

-- A closed core stays closed under every event, and no effect of it spawns a child or runs a job.
pub transition-IsSilent :
    (c : ReaperCore) (e : ControlEvent) → IsClosed c → IsSilent (transition c e)
unfolding transition
transition-IsSilent c e h =
    let first = IsSilent-handle c e.kind e h in
    let second = dispatch-IsClosed (handle e.kind c e).0 first.0 in
    (
      second.0,
      All-append IsQuiet (handle e.kind c e).1 _ first.1 (subst (All IsQuiet) (sym second.1) tt),
    )

-- The CLOSED failures of the jobs, and the stop orders, that `close` sends to the slots.
abbrev pub stop_orders : List ControlSlot → List ControlEffect
stop_orders [] = []
stop_orders (s ∷ slots) =
    fail_jobs (slot_job s) FailureReason.closed
    ++ to_slot EffectKind.send_stop s.identity ∷ stop_orders slots

stop_slots-orders : (d : Dict ℕ ControlSlot) → (stop_slots d).1 ≡ stop_orders (values d)
unfolding stop_slots
stop_slots-orders [] = refl
stop_slots-orders ((fd, s) ∷ d) =
    ap
      (λ es.
        fail_jobs (slot_job s) FailureReason.closed ++ to_slot EffectKind.send_stop s.identity ∷ es)
      (stop_slots-orders d)

close-orders :
    (c : ReaperCore)
    → c.closing ≡ false
    → (close c).1 ≡ fail_jobs c.queue FailureReason.closed ++ stop_orders (values c.slots)
unfolding close
close-orders c open_ =
    if_elim
      (λ (s : Step). s.1 ≡ fail_jobs c.queue FailureReason.closed ++ stop_orders (values c.slots))
      c.closing _ _ (λ shut. cc)
      (λ _. ap (◌++◌ (fail_jobs c.queue FailureReason.closed)) (stop_slots-orders c.slots))

handle-close :
    (k : EventKind) (c : ReaperCore) (e : ControlEvent)
    → k ≡ EventKind.close
    → handle k c e ≡ close c
unfolding handle
handle-close k c e p = rw p

-- What CLOSE makes of an open core.
abbrev pub ClosesTo : ReaperCore → Step → Type 0
ClosesTo c s =
    IsClosed s.0 × (s.1 ≡ fail_jobs c.queue FailureReason.closed ++ stop_orders (values c.slots))

-- CLOSE on an open core leaves it closed; its effects fail each queued job as closed, in order, and
-- then, for each slot, fail its job as closed and order it to stop.
pub transition-close :
    (c : ReaperCore) (e : ControlEvent)
    → e.kind ≡ EventKind.close
    → c.closing ≡ false
    → ClosesTo c (transition c e)
unfolding transition
transition-close c e k open_ =
    let shut = close-IsSilent c open_ in
    let after = dispatch-IsClosed (close c).0 shut.0 in
    subst (λ s. ClosesTo c ((dispatch s.0).0, s.1 ++ (dispatch s.0).1))
      (sym (handle-close e.kind c e k))
      (after.0, ap (◌++◌ (close c).1) after.1 ∙ append-nil (close c).1 ∙ close-orders c open_)
