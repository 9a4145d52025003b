-- ===== src/Pool/Started.antt =====
-- A pool of reaper/pool.py that has started stays so until its close clears its tables.
use reaper.Base.{
  ℕ, zero, suc, ◌≡◌, refl, ◌∙◌, Bool, true, false, List, [], ◌∷◌, ◌++◌, arith, Option-cases, inl,
  inr, if_elim,
}
use reaper.Control.Types.{EffectKind, ControlEvent, ControlEffect}
use reaper.Control.Apply.{Outcome, applied, assertion_error, apply}
use reaper.Pool.Spawn.{Spawned, started, failed, too_large, spawn_effect}
use reaper.Pool.Slots.{Slot, SkeletonPool, slot_for, write_slot, drop, sync_slots}
use reaper.Pool.Drive.{
  Host, kill_fault, Turn, went, threw, fed, feed, synced_turn, recovering, spawned_event,
  spawn_failed_event, drive_spawned, wait_child, close_beat, reap_slot, drive_slot, on_slot, carry,
  drive_effect, Driven, driven, raised, unfinished, drive,
}

abbrev pub on : Driven → Bool
on (driven q) = q.started
on (raised q) = q.started
on (unfinished q es) = q.started

abbrev on_turn : Turn → Bool
on_turn (went q more) = q.started
on_turn (threw q) = q.started

pub write_slot-started : (p : SkeletonPool) (s : Slot) → (write_slot p s).started ≡ p.started
unfolding write_slot
write_slot-started p s = ground arith

drop-started : (p : SkeletonPool) (s : Slot) → (drop p s).started ≡ p.started
unfolding drop
drop-started p s = ground arith

wait_child-started :
    (host : Host) (s : Slot) (p : SkeletonPool) → (wait_child host s p).started ≡ p.started
unfolding wait_child
wait_child-started host s p = ground arith

close_beat-started : (s : Slot) (p : SkeletonPool) → (close_beat s p).started ≡ p.started
unfolding close_beat
close_beat-started s p =
    if_elim (λ (q : SkeletonPool). q.started ≡ p.started) s.beat_fd _ _
      (λ _. write_slot-started p (record s { beat_fd = false })) (λ _. refl)

drive_slot-started :
    (host : Host) (k : EffectKind) (e : ControlEffect) (s : Slot) (p : SkeletonPool)
    → (drive_slot host k e s p).started ≡ p.started
unfolding drive_slot reap_slot
drive_slot-started host EffectKind.send_stop e s p = write_slot-started p _
drive_slot-started host EffectKind.close_death e s p =
    if_elim (λ (q : SkeletonPool). q.started ≡ p.started) s.death_writer _ _
      (λ _. write_slot-started p (record s { death_writer = false })) (λ _. refl)
drive_slot-started host EffectKind.close_control e s p =
    if_elim (λ (q : SkeletonPool). q.started ≡ p.started) s.control _ _
      (λ _. write_slot-started p (record s { control = false })) (λ _. refl)
drive_slot-started host EffectKind.drop e s p = drop-started p s
drive_slot-started host EffectKind.reap e s p =
    close_beat-started s (wait_child host s p) ∙ wait_child-started host s p
drive_slot-started host EffectKind.kill e s p =
    write_slot-started p (record s { expected_stop = true })
drive_slot-started host k e s p = refl

on_slot-started :
    (host : Host) (e : ControlEffect) (p : SkeletonPool) → (on_slot host e p).started ≡ p.started
unfolding on_slot
on_slot-started host e p = elim (Option-cases (slot_for p e.identity)) [
  | inl n ↦ rw (n, on_slot) refl
  | inr (s, f) ↦ rw (f, on_slot) (drive_slot-started host e.kind e s p)
]

carry-started :
    (host : Host) (k : EffectKind) (e : ControlEffect) (p : SkeletonPool)
    → (carry host k e p).started ≡ p.started
unfolding carry
carry-started host EffectKind.send_run e p = refl
carry-started host EffectKind.send_stop e p = on_slot-started host e p
carry-started host EffectKind.resolve e p = refl
carry-started host EffectKind.fail e p = refl
carry-started host k e p = on_slot-started host e p

feed-started : (e : ControlEvent) (p : SkeletonPool) → on_turn (feed e p) ≡ p.started
unfolding feed
feed-started e p = go (apply p.core e)
  where
    go : (o : Outcome) → on_turn (fed p o) ≡ p.started
    go (applied c effects) = refl
    go (assertion_error c) = refl

synced-started : (t : Turn) → on_turn (synced_turn t) ≡ on_turn t
unfolding sync_slots
synced-started (went q more) = refl
synced-started (threw q) = refl

recovering-started : (t : Turn) → on_turn (recovering t) ≡ on_turn t
recovering-started (went q more) = refl
recovering-started (threw q) = refl

drive_spawned-started :
    (gen : ℕ) (s : Spawned) (p : SkeletonPool) → on_turn (drive_spawned gen s p) ≡ p.started
unfolding drive_spawned
drive_spawned-started gen (started fd pid held) p =
    synced-started (feed (spawned_event (record { fd = fd; gen = gen })) _) ∙ feed-started _ _
drive_spawned-started gen (failed held) p =
    recovering-started (feed (spawn_failed_event gen) p) ∙ feed-started (spawn_failed_event gen) p
drive_spawned-started gen too_large p = refl

drive_effect-started :
    (host : Host) (k : EffectKind) (e : ControlEffect) (p : SkeletonPool)
    → on_turn (drive_effect host k e p) ≡ p.started
unfolding drive_effect sync_slots
drive_effect-started host EffectKind.spawn e p = elim (Option-cases e.gen) [
  | inl n ↦ rw (n, drive_effect) refl
  | inr (gen, h) ↦
      rw (h, drive_effect) (drive_spawned-started gen (spawn_effect (host.spawn p gen)) p)
]
drive_effect-started host EffectKind.kill e p =
    if_elim (λ t. on_turn t ≡ p.started) (kill_fault host e p) _ _
      (λ _. carry-started host EffectKind.kill e p) (λ _. carry-started host EffectKind.kill e p)
drive_effect-started host k e p = carry-started host k e p

-- A drive neither starts nor ends a pool.
pub drive-started :
    (host : Host) (fuel : ℕ) (es : List ControlEffect) (p : SkeletonPool)
    → on (drive host fuel es p) ≡ p.started
unfolding drive sync_slots
drive-started host fuel [] p = refl
drive-started host zero (e ∷ es) p = refl
drive-started host (suc fuel) (e ∷ es) p =
    go (drive_effect host e.kind e p) (drive_effect-started host e.kind e p)
      (drive-started host fuel)
  where
    go :
        (t : Turn)
        → on_turn t ≡ p.started
        → ((fs : List ControlEffect) (q : SkeletonPool) → on (drive host fuel fs q) ≡ q.started)
        → on (elim t [ went q more ↦ drive host fuel (es ++ more) q | threw q ↦ raised q ])
          ≡ p.started
    go (went q more) h ih = ih (es ++ more) q ∙ h
    go (threw q) h ih = h
