-- ===== src/Control/Slots.antt =====
-- The table and the queue of ReaperCore in reaper/control.py stay sound under every method.
use reaper.Base.{
  ℕ, suc, zero, String, ◌≡◌, refl, ap, sym, none, some, List, [], ◌∷◌, ◌++◌, arith, contains, All,
  All-append, string_eq, nat_eq, Bool-cases, Option-cases, inl, inr, truthy, not, ◌&&◌, ltb,
}
use reaper.Base.Dict.{Dict, put, All-put, All-remove, All-get}
use reaper.Control.Types.{
  SkeletonId, SkeletonState, EventKind, ControlSlot, ControlEvent, ReaperCore,
}
use reaper.Control.Core.{
  jobs, find, fill_loop, fill, admitted, register, spawned, spawn_failed, ready, submit, result,
  lost, close, deadline, dispatch, dispatch_slots, is_starting, is_running, is_idle, owns,
  stop_slots,
}
use reaper.Control.Apply.{handle}
use reaper.Control.Effects.{IsSound}
use reaper.Control.Invariant.{IsNamed, branch_core, find-some}

-- A SUBMIT carries a job id that is not the empty text.
abbrev pub IsNamedEvent : EventKind → ControlEvent → Type 0
IsNamedEvent EventKind.submit e = (job : String) → e.job ≡ some job → IsNamed job
IsNamedEvent k e = Unit

pub record IsOrderly (c : ReaperCore) : Type 0 where
  pub sound : All IsSound c.slots
  pub named : All IsNamed c.queue

pub record SameTable (c d : ReaperCore) : Type 0 where
  pub slots : d.slots ≡ c.slots
  pub queue : d.queue ≡ c.queue
  pub closing : d.closing ≡ c.closing
  pub target : d.target ≡ c.target

SameTable-fill_loop : (fuel n : ℕ) (c : ReaperCore) → SameTable c (fill_loop fuel n c).0
unfolding fill_loop
SameTable-fill_loop zero n c = record { slots = refl; queue = refl; closing = refl; target = refl }
SameTable-fill_loop (suc fuel) n c = elim (Bool-cases (not c.closing && ltb n c.target)) [
  | inl more ↦ ground (
    arith,
    SameTable-fill_loop fuel (suc n) (record c {
      next_gen = suc c.next_gen;
      pending_spawns = c.pending_spawns ++ suc c.next_gen ∷ [];
    }),
  )
  | inr done ↦ ground arith
]

pub SameTable-fill : (c : ReaperCore) → SameTable c (fill c).0
unfolding fill
SameTable-fill c = SameTable-fill_loop c.target _ c

IsOrderly-fill : (c : ReaperCore) → IsOrderly c → IsOrderly (fill c).0
IsOrderly-fill c h = record {
  sound = rw ((SameTable-fill c).slots) h.sound;
  named = rw ((SameTable-fill c).queue) h.named;
}

module _ (c : ReaperCore) (h : IsOrderly c) where
  -- One slot written back with another state and job.
  IsOrderly-put :
      (s t : ControlSlot)
      → t.identity ≡ s.identity
      → truthy t.job ≡ is_running t.state
      → IsOrderly (record c { slots = put c.slots s.identity.fd t })
  IsOrderly-put s t same busy = record {
    sound =
        All-put IsSound c.slots s.identity.fd t
          (record { keyed = ap (λ (i : SkeletonId). i.fd) (sym same); busy = busy }) h.sound;
    named = h.named;
  }

  IsOrderly-register : (gen : ℕ) (i : SkeletonId) → IsOrderly (register c gen i).0
  unfolding register
  IsOrderly-register gen i =
      branch_core IsOrderly (not (contains c.pending_spawns gen)) _ _ (λ _. h)
        λ _.
          branch_core IsOrderly c.closing _ _ (λ _. record { sound = h.sound; named = h.named })
            λ _. IsOrderly-fill (admitted c gen i) (record {
              sound =
                  All-put IsSound c.slots i.fd
                    (record { identity = i; state = SkeletonState.starting; job = none })
                    (record { keyed = refl; busy = refl }) h.sound;
              named = h.named;
            })

  IsOrderly-spawned : (e : ControlEvent) → IsOrderly (spawned c e).0
  unfolding spawned
  IsOrderly-spawned e = elim (Option-cases e.gen) [
    | inl n ↦ rw (n, spawned) h
    | inr (g, p) ↦ elim (Option-cases e.identity) [
      | inl n ↦ rw (p, n, spawned) h
      | inr (i, q) ↦ rw (p, q, spawned) (IsOrderly-register g i)
    ]
  ]

  IsOrderly-ready : (e : ControlEvent) → IsOrderly (ready c e).0
  unfolding ready
  IsOrderly-ready e = elim (Option-cases (find c e.identity)) [
    | inl f ↦ rw (f, ready) h
    | inr (s, f) ↦
        rw (f, ready)
          (branch_core IsOrderly (not (is_starting s.state)) _ _ (λ _. h)
            λ start.
              IsOrderly-put s (record s { state = SkeletonState.idle }) refl
                (ground (
                  arith,
                  (All-get IsSound c.slots s.identity.fd s h.sound
                      (find-some c e.identity s f).0).busy,
                )))
  ]

  IsOrderly-result : (e : ControlEvent) → IsOrderly (result c e).0
  unfolding result
  IsOrderly-result e = elim (Option-cases (find c e.identity)) [
    | inl f ↦ rw (f, result) h
    | inr (s, f) ↦ elim (Option-cases e.job) [
      | inl n ↦ rw (f, n, result) h
      | inr (job, q) ↦
          rw (f, q, result)
            (branch_core IsOrderly (not (is_running s.state)) _ _ (λ _. h)
              λ _.
                branch_core IsOrderly (not (owns s (some job))) _ _ (λ _. h)
                  λ _.
                    IsOrderly-put s (record s { state = SkeletonState.idle; job = none }) refl refl)
    ]
  ]

  IsOrderly-lost : (e : ControlEvent) → IsOrderly (lost c e).0
  unfolding lost
  IsOrderly-lost e = elim (Option-cases (find c e.identity)) [
    | inl f ↦ rw (f, lost) h
    | inr (s, f) ↦
        rw (f, lost)
          (record { sound = All-remove IsSound c.slots s.identity.fd h.sound; named = h.named })
  ]

  IsOrderly-submit : (e : ControlEvent) → IsNamedEvent EventKind.submit e → IsOrderly (submit c e).0
  unfolding submit
  IsOrderly-submit e ok = elim (Option-cases e.job) [
    | inl n ↦ rw (n, submit) h
    | inr (job, q) ↦
        rw (q, submit)
          (branch_core IsOrderly c.closing _ _ (λ _. h)
            λ _.
              branch_core IsOrderly (contains (jobs c) job) _ _ (λ _. h)
                λ _. record {
                  sound = h.sound;
                  named = All-append IsNamed c.queue (job ∷ []) h.named (ok job q, tt);
                })
  ]

IsSound-stop_slots : (d : Dict ℕ ControlSlot) → All IsSound d → All IsSound (stop_slots d).0
unfolding stop_slots
IsSound-stop_slots [] h = h
IsSound-stop_slots ((fd, s) ∷ d) h =
    (record { keyed = h.0.keyed; busy = refl }, IsSound-stop_slots d h.1)

IsOrderly-close : (c : ReaperCore) → IsOrderly c → IsOrderly (close c).0
unfolding close
IsOrderly-close c h =
    branch_core IsOrderly c.closing _ _ (λ _. h)
      λ _. record { sound = IsSound-stop_slots c.slots h.sound; named = tt }

pub IsOrderly-handle :
    (k : EventKind) (c : ReaperCore) (e : ControlEvent)
    → IsOrderly c
    → IsNamedEvent k e
    → IsOrderly (handle k c e).0
unfolding handle spawn_failed deadline
IsOrderly-handle EventKind.start c e h ok = IsOrderly-fill c h
IsOrderly-handle EventKind.recover c e h ok = IsOrderly-fill c h
IsOrderly-handle EventKind.spawned c e h ok = IsOrderly-spawned c h e
IsOrderly-handle EventKind.spawn_failed c e h ok = ground arith
IsOrderly-handle EventKind.ready c e h ok = IsOrderly-ready c h e
IsOrderly-handle EventKind.submit c e h ok = IsOrderly-submit c h e ok
IsOrderly-handle EventKind.result c e h ok = IsOrderly-result c h e
IsOrderly-handle EventKind.eof c e h ok = IsOrderly-lost c h e
IsOrderly-handle EventKind.send_failed c e h ok = IsOrderly-lost c h e
IsOrderly-handle EventKind.close c e h ok = IsOrderly-close c h
IsOrderly-handle EventKind.deadline c e h ok = ground arith

IsOrderly-dispatch_slots :
    (d : Dict ℕ ControlSlot) (queue : List String)
    → All IsSound d
    → All IsNamed queue
    → All IsSound (dispatch_slots d queue).0 × All IsNamed (dispatch_slots d queue).1
unfolding dispatch_slots
IsOrderly-dispatch_slots [] [] s n = (s, n)
IsOrderly-dispatch_slots (x ∷ d) [] s n = (s, n)
IsOrderly-dispatch_slots [] (job ∷ queue) s n = (s, n)
IsOrderly-dispatch_slots ((fd, x) ∷ d) (job ∷ queue) s n = elim (Bool-cases (is_idle x.state)) [
  | inl idle ↦
      let ih = IsOrderly-dispatch_slots d queue s.1 n.1 in
      rw (idle, dispatch_slots) ((record { keyed = s.0.keyed; busy = rw n.0 refl }, ih.0), ih.1)
  | inr other ↦
      let ih = IsOrderly-dispatch_slots d (job ∷ queue) s.1 n in
      rw (other, dispatch_slots) ((s.0, ih.0), ih.1)
]

pub IsOrderly-dispatch : (c : ReaperCore) → IsOrderly c → IsOrderly (dispatch c).0
unfolding dispatch
IsOrderly-dispatch c h =
    let r = IsOrderly-dispatch_slots c.slots c.queue h.sound h.named in
    record { sound = r.0; named = r.1 }
