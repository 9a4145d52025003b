-- ===== src/Pool/Rounds.antt =====
-- What one round of drive of SkeletonPool in reaper/pool.py does to the core, the futures and the
-- identities of the live slots.
use reaper.Base.{
  ◌≡◌, refl, sym, subst, ◌∙◌, true, false, Option, none, some, List, [], ◌∷◌, arith, nat_eq,
  Option-cases, inl, inr, if_elim, not, ap, ◌++◌,
}
use mathlib.Core.List.{append-nil}
use reaper.Pool.Faults.{Circuit}
use reaper.Base.Dict.{get, remove}
use reaper.Control.Types.{SkeletonId, EffectKind, ControlEffect}
use reaper.Control.Core.{identity_eq}
use reaper.Control.Drops.{drop_of}
use reaper.Pool.Futures.{answer}
use reaper.Pool.Slots.{
  sends_in, Slot, Call, SkeletonPool, live_slot, slot_for, write_slot, drop, sync_slots,
}
use reaper.Pool.Drive.{Host, wait_child, close_beat, reap_slot, drive_slot, on_slot, carry, called}
use reaper.Pool.Names.{names, get-names, names-sync_each, names-write_slot, names-drop}
use reaper.Pool.Mirror.{IsMirrored, Mirrored-drop}

-- A pool with the same core, futures and live identities, that closes if the other one did.
pub record Still (p p' : SkeletonPool) : Type 0 where
  pub core : p'.core ≡ p.core
  pub futures : p'.futures ≡ p.futures
  pub names : names p'.slots ≡ names p.slots
  pub closing : p'.recovery.closing ≡ p.recovery.closing
  pub sends : sends_in p'.calls ≡ sends_in p.calls

pub sends_in-append : (cs ds : List Call) → sends_in (cs ++ ds) ≡ sends_in cs ++ sends_in ds
sends_in-append [] ds = refl
sends_in-append (Call.send_run e ∷ cs) ds = ap (◌∷◌ e) (sends_in-append cs ds)
sends_in-append (Call.send_stop e ∷ cs) ds = ap (◌∷◌ e) (sends_in-append cs ds)
sends_in-append (Call.close_death i ∷ cs) ds = sends_in-append cs ds
sends_in-append (Call.close_control i ∷ cs) ds = sends_in-append cs ds
sends_in-append (Call.close_beat i ∷ cs) ds = sends_in-append cs ds
sends_in-append (Call.waitpid pid ∷ cs) ds = sends_in-append cs ds
sends_in-append (Call.killpg pid ∷ cs) ds = sends_in-append cs ds

-- The message that an effect sends.
abbrev pub send_of : ControlEffect → List ControlEffect
send_of e = elim e.kind [ EffectKind.send_run ↦ e ∷ [] | EffectKind.send_stop ↦ e ∷ [] | _ ↦ [] ]

Still-trans : (p q r : SkeletonPool) → Still p q → Still q r → Still p r
Still-trans p q r a b = record {
  core = b.core ∙ a.core;
  futures = b.futures ∙ a.futures;
  names = b.names ∙ a.names;
  closing = b.closing ∙ a.closing;
  sends = b.sends ∙ a.sends;
}

pub Still-refl : (p : SkeletonPool) → Still p p
Still-refl p = record { core = refl; futures = refl; names = refl; closing = refl; sends = refl }

pub Still-write_slot : (p : SkeletonPool) (s : Slot) → Still p (write_slot p s)
unfolding write_slot
Still-write_slot p s = record {
  core = ground arith;
  futures = ground arith;
  names = names-write_slot p s;
  closing = ground arith;
  sends = ground arith;
}

pub Still-sync : (p : SkeletonPool) → Still p (sync_slots p)
unfolding sync_slots
Still-sync p = record {
  core = refl;
  futures = refl;
  names = names-sync_each p.core.slots p.slots;
  closing = refl;
  sends = refl;
}

-- The same after a call of the system.
Still-called :
    (p q : SkeletonPool) (more : List Call)
    → sends_in more ≡ []
    → Still p q
    → Still p (called q more)
Still-called p q more none_sent h = record {
  sends =
      sends_in-append q.calls more
      ∙ ap (◌++◌ (sends_in q.calls)) none_sent
      ∙ append-nil (sends_in q.calls)
      ∙ h.sends;
  core = h.core;
  futures = h.futures;
  names = h.names;
  closing = h.closing;
}

-- The same after a wait and a kill.
killed :
    (p : SkeletonPool) (s : Slot)
    → Still p (called (called p (Call.waitpid s.pid ∷ [])) (Call.killpg s.pid ∷ []))
killed p s =
    Still-called p (called p (Call.waitpid s.pid ∷ [])) (Call.killpg s.pid ∷ []) refl
      (Still-called p p (Call.waitpid s.pid ∷ []) refl (Still-refl p))

Still-circuit : (p q : SkeletonPool) (c : Circuit) → Still p q → Still p (record q { circuit = c })
Still-circuit p q c h = record {
  core = h.core;
  futures = h.futures;
  names = h.names;
  closing = h.closing;
  sends = h.sends;
}

Still-wait_child : (host : Host) (s : Slot) (p : SkeletonPool) → Still p (wait_child host s p)
unfolding wait_child
Still-wait_child host s p =
    let still = λ (q : SkeletonPool). Still p q in
    if_elim still (not (host.child_there p s.pid)) _ _ (λ _. Still-called p p _ refl (Still-refl p))
      λ _.
        if_elim still (host.kill_fails (called p (Call.waitpid s.pid ∷ [])) s.pid) _ _
          (λ _. Still-circuit p _ _ (killed p s)) (λ _. killed p s)

Still-close_beat : (s : Slot) (p : SkeletonPool) → Still p (close_beat s p)
unfolding close_beat
Still-close_beat s p =
    if_elim (Still p) s.beat_fd _ _
      (λ _. Still-called p _ _ refl (Still-write_slot p (record s { beat_fd = false })))
      (λ _. Still-refl p)

Still-reap_slot : (host : Host) (s : Slot) (p : SkeletonPool) → Still p (reap_slot host s p)
unfolding reap_slot
Still-reap_slot host s p =
    let closed =
      Still-trans p (wait_child host s p) (close_beat s (wait_child host s p))
        (Still-wait_child host s p) (Still-close_beat s (wait_child host s p)) in
    record {
      core = closed.core;
      futures = closed.futures;
      names = closed.names;
      closing = closed.closing;
      sends = closed.sends;
    }

Still-drive_slot :
    (host : Host) (k : EffectKind) (e : ControlEffect) (s : Slot) (p : SkeletonPool)
    → (k ≡ EffectKind.drop → ⊥)
    → Still p (drive_slot host k e s p)
unfolding drive_slot
Still-drive_slot host EffectKind.send_stop e s p other = Still-write_slot p _
Still-drive_slot host EffectKind.close_death e s p other =
    if_elim (Still p) s.death_writer _ _
      (λ _. Still-called p _ _ refl (Still-write_slot p (record s { death_writer = false })))
      (λ _. Still-refl p)
Still-drive_slot host EffectKind.close_control e s p other =
    if_elim (Still p) s.control _ _
      (λ _. Still-called p _ _ refl (Still-write_slot p (record s { control = false })))
      (λ _. Still-refl p)
Still-drive_slot host EffectKind.drop e s p other = absurd (other refl)
Still-drive_slot host EffectKind.reap e s p other = Still-reap_slot host s p
Still-drive_slot host EffectKind.kill e s p other =
    Still-called p _ _ refl (Still-write_slot p (record s { expected_stop = true }))
Still-drive_slot host k e s p other = Still-refl p

Still-on_slot :
    (host : Host) (e : ControlEffect) (p : SkeletonPool)
    → (e.kind ≡ EffectKind.drop → ⊥)
    → Still p (on_slot host e p)
unfolding on_slot
Still-on_slot host e p other = elim (Option-cases (slot_for p e.identity)) [
  | inl n ↦ rw (n, on_slot) (Still-refl p)
  | inr (s, f) ↦ rw (f, on_slot) (Still-drive_slot host e.kind e s p other)
]

-- A round of the loop answers the effect's future, leaves the core, and keeps the mirror with the rest.
pub record Carries (p : SkeletonPool) (e : ControlEffect) (rest : List ControlEffect)
    (p' : SkeletonPool) : Type 0 where
  pub core : p'.core ≡ p.core
  pub futures : p'.futures ≡ answer e p.futures
  pub mirrored : IsMirrored (names p'.slots) p.core rest
  pub closing : p'.recovery.closing ≡ p.recovery.closing
  pub sends : sends_in p'.calls ≡ sends_in p.calls ++ send_of e

-- An effect that drops nothing and answers nothing.
quiet_carry :
    (p q : SkeletonPool) (e : ControlEffect) (rest : List ControlEffect)
    → drop_of e ≡ []
    → answer e p.futures ≡ p.futures
    → send_of e ≡ []
    → Still p q
    → IsMirrored (names p.slots) p.core (e ∷ rest)
    → Carries p e rest q
quiet_carry p q e rest drops answers silent h m = record {
  sends = h.sends ∙ sym (append-nil (sends_in p.calls)) ∙ sym (ap (◌++◌ (sends_in p.calls)) silent);
  core = h.core;
  futures = h.futures ∙ sym answers;
  mirrored =
      subst (λ n. IsMirrored n p.core rest) (sym h.names)
        (record { keyed = m.keyed; sole = m.sole; mirrors = λ i. rw drops at (m.mirrors i) });
  closing = h.closing;
}

-- An effect that sends.
sent_carry :
    (p q : SkeletonPool) (c : Call) (e : ControlEffect) (rest : List ControlEffect)
    → drop_of e ≡ []
    → answer e p.futures ≡ p.futures
    → send_of e ≡ sends_in (c ∷ [])
    → Still p q
    → IsMirrored (names p.slots) p.core (e ∷ rest)
    → Carries p e rest (called q (c ∷ []))
sent_carry p q c e rest drops answers sent h m = record {
  core = h.core;
  futures = h.futures ∙ sym answers;
  mirrored =
      subst (λ n. IsMirrored n p.core rest) (sym h.names)
        (record { keyed = m.keyed; sole = m.sole; mirrors = λ i. rw drops at (m.mirrors i) });
  closing = h.closing;
  sends =
      sends_in-append q.calls (c ∷ [])
      ∙ ap (λ cs. cs ++ sends_in (c ∷ [])) h.sends
      ∙ sym (ap (◌++◌ (sends_in p.calls)) sent);
}

-- An identity that stands among the live slots has its slot there.
live_slot-names :
    (p : SkeletonPool) (i : SkeletonId)
    → get (names p.slots) i.fd ≡ some i
    → (s : Slot) × (live_slot p i ≡ some s) × (s.identity ≡ i)
live_slot-names p i h = go (get p.slots i.fd) (get-names p.slots i.fd) refl
  where
    go :
        (o : Option Slot)
        → get (names p.slots) i.fd ≡ elim o [ none ↦ none | some s ↦ some s.identity ]
        → get p.slots i.fd ≡ o
        → (s : Slot) × (live_slot p i ≡ some s) × (s.identity ≡ i)
    go none e at = absurd (cc)
    go (some s) e at =
        let same : s.identity ≡ i = cc in
        (s, ground (arith, at, same, identity_eq.agrees s.identity i), same)

drop-names :
    (p : SkeletonPool) (s : Slot) (i : SkeletonId)
    → live_slot p i ≡ some s
    → s.identity ≡ i
    → names (drop p s).slots ≡ remove (names p.slots) i.fd
drop-names p s i live same =
    subst (λ (j : SkeletonId). names (drop p s).slots ≡ remove (names p.slots) j.fd) same
      (names-drop p s s (subst (λ j. live_slot p j ≡ some s) (sym same) live))

drop_rest :
    (p : SkeletonPool) (s : Slot)
    → ((drop p s).core ≡ p.core)
      × ((drop p s).futures ≡ p.futures)
      × ((drop p s).recovery.closing ≡ p.recovery.closing)
      × (sends_in (drop p s).calls ≡ sends_in p.calls)
unfolding drop
drop_rest p s = (ground arith, ground arith, ground arith, ground arith)

on_slot-drop :
    (host : Host) (e : ControlEffect) (i : SkeletonId) (p : SkeletonPool) (s : Slot)
    → e.kind ≡ EffectKind.drop
    → e.identity ≡ some i
    → live_slot p i ≡ some s
    → on_slot host e p ≡ drop p s
unfolding on_slot drive_slot slot_for
on_slot-drop host e i p s k h live =
    let found : slot_for p e.identity ≡ some s = rw h (rw live refl) in
    rw (found, on_slot) (rw k refl)

drop-Carries :
    (host : Host) (e : ControlEffect) (rest : List ControlEffect) (p : SkeletonPool)
    → e.kind ≡ EffectKind.drop
    → IsMirrored (names p.slots) p.core (e ∷ rest)
    → Carries p e rest (on_slot host e p)
unfolding answer on_slot slot_for
drop-Carries host e rest p k m = go e.identity refl
  where
    unanswered : answer e p.futures ≡ p.futures
    unanswered = rw (answer, k) refl

    silent : send_of e ≡ []
    silent = rw k refl

    go : (o : Option SkeletonId) → e.identity ≡ o → Carries p e rest (on_slot host e p)
    go none h =
        quiet_carry p (on_slot host e p) e rest (rw (k, h) refl) unanswered (rw k refl)
          (rw (h, on_slot, slot_for) (Still-refl p)) m
    go (some i) h =
        let mirrored = Mirrored-drop (names p.slots) p.core rest e i k h m in
        let (s, live, same) = live_slot-names p i mirrored.0 in
        let done = on_slot-drop host e i p s k h live in
        subst (Carries p e rest) (sym done) (record {
          core = (drop_rest p s).0;
          futures = (drop_rest p s).1 ∙ sym unanswered;
          mirrored =
              subst (λ n. IsMirrored n p.core rest) (sym (drop-names p s i live same)) mirrored.1;
          closing = (drop_rest p s).2;
          sends =
              (drop_rest p s).3
              ∙ sym (append-nil (sends_in p.calls))
              ∙ sym (ap (◌++◌ (sends_in p.calls)) silent);
        })

-- What an effect other than a SPAWN carries out.
pub carry-Carries :
    (host : Host) (k : EffectKind) (e : ControlEffect) (rest : List ControlEffect)
    (p : SkeletonPool)
    → e.kind ≡ k
    → IsMirrored (names p.slots) p.core (e ∷ rest)
    → Carries p e rest (carry host k e p)
unfolding carry answer
carry-Carries host EffectKind.send_run e rest p h m =
    sent_carry p p (Call.send_run e) e rest (rw h refl) (rw (answer, h) refl) (rw h refl)
      (Still-refl p) m
carry-Carries host EffectKind.send_stop e rest p h m =
    sent_carry p (on_slot host e p) (Call.send_stop e) e rest (rw h refl) (rw (answer, h) refl)
      (rw h refl) (Still-on_slot host e p (λ d. absurd (cc))) m
carry-Carries host EffectKind.resolve e rest p h m = record {
  core = refl;
  futures = rw (answer, h) refl;
  mirrored = record { keyed = m.keyed; sole = m.sole; mirrors = λ i. rw h at (m.mirrors i) };
  closing = refl;
  sends = rw h (sym (append-nil (sends_in p.calls)));
}
carry-Carries host EffectKind.fail e rest p h m = record {
  core = refl;
  futures = rw (answer, h) refl;
  mirrored = record { keyed = m.keyed; sole = m.sole; mirrors = λ i. rw h at (m.mirrors i) };
  closing = refl;
  sends = rw h (sym (append-nil (sends_in p.calls)));
}
carry-Carries host EffectKind.drop e rest p h m = drop-Carries host e rest p h m
carry-Carries host k e rest p h m =
    quiet_carry p _ e rest (rw h refl) (rw (answer, h) refl) (rw h refl)
      (Still-on_slot host e p (λ d. absurd (cc))) m
