-- ===== src/Pool/Turns.antt =====
-- One round of drive in reaper/pool.py: a spawn that fails or starts, and every other effect.
use reaper.Base.{
  ℕ, ◌+◌, ◌≤◌, ◌≡◌, refl, sym, subst, ap, ◌∙◌, Bool, true, Option, none, some, List, [], ◌∷◌, ◌++◌,
  arith, All, count, nat_eq, inl, inr, string_eq, Option-cases, if_elim, false,
}
use mathlib.Core.List.{append-nil}
use mathlib.Core.Option.{some-injective}
use reaper.Base.Dict.{get, put, keys}
use reaper.Control.Types.{SkeletonId, EffectKind, ControlEffect}
use reaper.Control.Core.{identity_eq}
use reaper.Control.Apply.{transition}
use reaper.Control.Drops.{held, dropped, transition-tally, count-dropped-append}
use reaper.Control.Costs.{potential, spawned-spent, spawn_failed-spent}
use reaper.Control.Safety.{IsValid, IsDelivered}
use reaper.Pool.Recovery.{Recovery, schedule_recovery}
use reaper.Control.Histories.{Reached-IsValid}
use reaper.Pool.Tidy.{spawn_effect-cases}
use reaper.Pool.Slots.{sends_in, slot_for, SkeletonPool, new_slot, sync_slots}
use reaper.Pool.Drive.{
  Host, kill_fault, Turn, went, threw, feed, spawned_event, spawn_failed_event, synced_turn,
  recovering, drive_spawned, drive_effect, carry,
}
use reaper.Pool.Names.{names, names-put, get-names}
use reaper.Pool.Mirror.{IsMirrored, Mirrored-free, Mirrored-put, IsKeyed, standing}
use reaper.Pool.Rounds.{Still-sync, carry-Carries}
use reaper.Pool.Carries.{
  Driving, Driving-Still, Goes, Goes-carried, Goes-fed, IsServed, Start, answer-spawn,
}

module _ (host : Host) (served : IsServed host) {s : Start} {e : ControlEffect}
    {pending : List ControlEffect} {p : SkeletonPool} (d : Driving s (e ∷ pending) p)
    (k : e.kind ≡ EffectKind.spawn) where
  -- The pending DROP effects without the SPAWN.
  waiting : IsMirrored (names p.slots) p.core pending
  waiting = record {
    keyed = d.mirrored.keyed;
    sole = d.mirrored.sole;
    mirrors = λ i. rw k at (d.mirrored.mirrors i);
  }

  Goes-failed : (gen : ℕ) → Goes s e pending p (feed (spawn_failed_event gen) p)
  Goes-failed gen =
      Goes-fed d (spawn_failed_event gen) p k refl refl refl refl refl
        (record { free = tt; named = tt; matched = tt }) refl
        (omega (arith, spawn_failed-spent p.core (spawn_failed_event gen) refl))
        (record {
          keyed = waiting.keyed;
          sole = waiting.sole;
          mirrors = λ i. omega (
            arith,
            waiting.mirrors i,
            count-dropped-append i pending (transition p.core (spawn_failed_event gen)).1,
            transition-tally i p.core (spawn_failed_event gen) tt,
          );
        })

  Goes-started :
      (i : SkeletonId) (pid : ℕ)
      → get p.slots i.fd ≡ none
      → Goes s e pending p
          (feed (spawned_event i) (record p { slots = put p.slots i.fd (new_slot i pid) }))
  Goes-started i pid fresh =
      Goes-fed d (spawned_event i) (record p { slots = put p.slots i.fd (new_slot i pid) }) k refl
        refl refl refl refl delivered refl
        (spawned-spent p.core (spawned_event i) i refl refl refl valid.issued free)
        (subst
          (λ m.
            IsMirrored m (transition p.core (spawned_event i)).0
              (pending ++ (transition p.core (spawned_event i)).1))
          (sym (names-put p.slots i.fd (new_slot i pid)))
          (record {
            keyed = put_in.0;
            sole = put_in.1;
            mirrors = λ a. omega (
              arith,
              put_in.2 a,
              count-dropped-append a pending (transition p.core (spawned_event i)).1,
              transition-tally a p.core (spawned_event i) delivered.free,
            );
          }))
    where
      valid : IsValid p.core
      valid = Reached-IsValid d.history

      absent : get (names p.slots) i.fd ≡ none
      absent = get-names p.slots i.fd ∙ rw fresh refl

      free : get p.core.slots i.fd ≡ none
      free = Mirrored-free i.fd waiting valid.orderly.sound absent

      put_in :
          (All IsKeyed (put (names p.slots) i.fd i))
          × ((fd : ℕ) → count fd (keys (put (names p.slots) i.fd i)) ≤ 1)
          × ((a : SkeletonId)
              → standing a (put (names p.slots) i.fd i)
                ≡ held a p.core + count a (dropped pending) + count a (i ∷ []))
      put_in = Mirrored-put i waiting absent

      delivered : IsDelivered p.core (spawned_event i)
      delivered = record {
        free = λ a same.
            subst (λ (b : SkeletonId). get p.core.slots b.fd ≡ none) (some-injective i a same) free;
        named = tt;
        matched = λ g a q r. cc;
      }

pub schedule_recovery-closing :
    (r : Recovery) (pre_ready : Bool) → (schedule_recovery r pre_ready).closing ≡ r.closing
unfolding schedule_recovery
schedule_recovery-closing r pre_ready = ground arith

-- The recovery that a failed spawn schedules, and the slots synchronised after another effect.
Goes-recovering :
    (s : Start) (e : ControlEffect) (pending : List ControlEffect) (p : SkeletonPool) (t : Turn)
    → Goes s e pending p t
    → Goes s e pending p (recovering t)
Goes-recovering s e pending p (went q more) g = (
  record {
    events = g.0.events;
    done = g.0.done;
    history = g.0.history;
    owes = g.0.owes;
    futures = g.0.futures;
    sends = g.0.sends;
    mirrored = g.0.mirrored;
    shut = λ h. schedule_recovery-closing q.recovery true ∙ g.0.shut h;
    stays = g.0.stays;
  },
  g.1,
)
Goes-recovering s e pending p (threw q) g = g

Goes-synced :
    (s : Start) (e : ControlEffect) (pending : List ControlEffect) (p : SkeletonPool) (t : Turn)
    → Goes s e pending p t
    → Goes s e pending p (synced_turn t)
Goes-synced s e pending p (went q more) g =
    let still = Still-sync q in
    (Driving-Still q (sync_slots q) still g.0, omega (arith, g.1, ap potential still.core))
Goes-synced s e pending p (threw q) g = g

module _ (host : Host) (served : IsServed host) {s : Start} {e : ControlEffect}
    {pending : List ControlEffect} {p : SkeletonPool} (d : Driving s (e ∷ pending) p) where
  Goes-spawn :
      e.kind ≡ EffectKind.spawn → Goes s e pending p (drive_effect host EffectKind.spawn e p)
  unfolding drive_effect drive_spawned
  Goes-spawn k = go e.gen refl
    where
      go : (o : Option ℕ) → e.gen ≡ o → Goes s e pending p (drive_effect host EffectKind.spawn e p)
      go none h =
          rw (h, drive_effect)
            (Goes-carried d p (record {
              core = refl;
              futures = sym (answer-spawn e p.futures k);
              sends =
                  sym (append-nil (sends_in p.calls))
                  ∙ sym (ap (◌++◌ (sends_in p.calls)) (rw k refl));
              mirrored = waiting host served d k;
              closing = refl;
            }))
      go (some gen) h = elim (spawn_effect-cases (host.spawn p gen) (served.fits p gen)) [
        | inl (kept, gave) ↦
            rw (h, drive_effect)
              (rw gave (
                Goes-synced s e pending p _ (
                  Goes-started host served d k (record { fd = (host.spawn p gen).fd; gen = gen })
                    (host.spawn p gen).pid (served.fresh p gen))))
        | inr (kept, gave) ↦
            rw (h, drive_effect)
              (rw gave (Goes-recovering s e pending p _ (Goes-failed host served d k gen)))
      ]

  Goes-carry :
      (k : EffectKind) → e.kind ≡ k → Goes s e pending p (went (sync_slots (carry host k e p)) [])
  Goes-carry k h =
      Goes-synced s e pending p (went (carry host k e p) [])
        (Goes-carried d (carry host k e p) (carry-Carries host k e pending p h d.mirrored))

  kill-allowed : kill_fault host e p ≡ false
  kill-allowed = elim (Option-cases (slot_for p e.identity)) [
    | inl n ↦ rw (n, kill_fault) refl
    | inr (slot, f) ↦ rw (f, kill_fault) (served.kills p slot.pid)
  ]

  pub Goes-effect : (k : EffectKind) → e.kind ≡ k → Goes s e pending p (drive_effect host k e p)
  unfolding drive_effect
  Goes-effect EffectKind.spawn h = Goes-spawn h
  Goes-effect EffectKind.kill h =
      if_elim (Goes s e pending p) (kill_fault host e p) _ _
        (λ fault. let quiet = kill-allowed in absurd (cc)) (λ _. Goes-carry EffectKind.kill h)
  Goes-effect k h = Goes-carry k h
