-- ===== src/Pool/Carries.antt =====
-- drive of SkeletonPool in reaper/pool.py and the core together: what the effects make of the core, the
-- futures, the messages and the live slots, in the core's order.
use reaper.Base.{
  ℕ, suc, ◌+◌, ◌≤◌, ◌≡◌, refl, sym, subst, ap, ◌∙◌, String, Bool, true, false, none, List, [], ◌∷◌,
  ◌++◌, arith, count, nat_eq, string_eq,
}
use mathlib.Core.List.{append-nil, append_assoc}
use reaper.Base.Dict.{get}
use reaper.Control.Types.{EffectKind, ControlEvent, ControlEffect}
use reaper.Control.Core.{identity_eq, jobs}
use reaper.Control.Apply.{transition}
use reaper.Control.Costs.{cost, costs, potential, costs-append}
use reaper.Control.Safety.{IsValid, IsDelivered, apply-IsValid, transition-conserves}
use reaper.Control.Effects.{ended, count-ended-append}
use reaper.Control.Jobs.{accepted}
use reaper.Control.Shut.{is_close, transition-Leaves}
use reaper.Control.Histories.{Reached, next, Reached-IsValid}
use reaper.Pool.Futures.{Futures, answer, answer_all}
use reaper.Pool.Spawn.{max_child_config}
use reaper.Pool.Slots.{sends_in, SkeletonPool}
use reaper.Pool.Drive.{Host, Turn, went, threw, feed}
use reaper.Pool.Names.{names}
use reaper.Pool.Mirror.{IsMirrored}
use reaper.Pool.Rounds.{send_of, Still, Carries}

-- What the system is relied on for: a new socket's descriptor is that of no live slot, the configuration
-- of a child is within its bound, and the parent is allowed to signal the group of a child that it has
-- not waited for, so that the killpg of a KILL raises no OSError but ProcessLookupError.
pub record IsServed (host : Host) : Type 0 where
  pub fresh : (p : SkeletonPool) (gen : ℕ) → get p.slots (host.spawn p gen).fd ≡ none
  pub fits : (p : SkeletonPool) (gen : ℕ) → (host.spawn p gen).config_size ≤ max_child_config
  pub kills : (p : SkeletonPool) (pid : ℕ) → host.kill_raises p pid ≡ false

-- What a drive starts from: the target of its pool, the effects that earlier drives carried out, the
-- futures, the messages that were sent, how often each job is to be answered or held, and whether the
-- core is closing already.
pub record Start : Type 0 where
  pub target : ℕ
  pub past : List ControlEffect
  pub futures : Futures
  pub sent : List ControlEffect
  pub owed : String → ℕ
  pub closed : Bool

-- The messages of the effects.
abbrev pub sends_of : List ControlEffect → List ControlEffect
sends_of [] = []
sends_of (e ∷ es) = send_of e ++ sends_of es

sends_of-append : (es fs : List ControlEffect) → sends_of (es ++ fs) ≡ sends_of es ++ sends_of fs
sends_of-append [] fs = refl
sends_of-append (e ∷ es) fs =
    ap (◌++◌ (send_of e)) (sends_of-append es fs)
    ∙ sym (append_assoc (send_of e) (sends_of es) (sends_of fs))

-- One more effect carried out.
sends_of-last :
    (past done : List ControlEffect) (e : ControlEffect)
    → past ++ sends_of (done ++ e ∷ []) ≡ (past ++ sends_of done) ++ send_of e
sends_of-last past done e =
    ap (◌++◌ past)
      (sends_of-append done (e ∷ []) ∙ ap (◌++◌ (sends_of done)) (append-nil (send_of e)))
    ∙ sym (append_assoc past (sends_of done) (send_of e))

-- A drive under way: the core has a history with the past effects, those that the drive has carried
-- out, in order, on the futures and the messages to children, and those that are pending. The live slots
-- mirror the core.
pub record Driving (s : Start) (pending : List ControlEffect) (p : SkeletonPool) : Type 0 where
  pub events : List ControlEvent
  pub done : List ControlEffect
  pub history : Reached s.target events p.core (s.past ++ (done ++ pending))
  pub owes : (j : String) → count j (jobs p.core) + count j (ended (done ++ pending)) ≡ s.owed j
  pub futures : p.futures ≡ answer_all done s.futures
  pub sends : sends_in p.calls ≡ s.sent ++ sends_of done
  pub mirrored : IsMirrored (names p.slots) p.core pending
  pub shut : p.core.closing ≡ true → p.recovery.closing ≡ true
  pub stays : p.core.closing ≡ s.closed

answer_all-append :
    (es fs : List ControlEffect) (p : Futures)
    → answer_all (es ++ fs) p ≡ answer_all fs (answer_all es p)
unfolding answer_all
answer_all-append [] fs p = refl
answer_all-append (e ∷ es) fs p = answer_all-append es fs (answer e p)

answer_all-last :
    (es : List ControlEffect) (e : ControlEffect) (p : Futures)
    → answer_all (es ++ e ∷ []) p ≡ answer e (answer_all es p)
unfolding answer_all
answer_all-last es e p = answer_all-append es (e ∷ []) p

pub answer-spawn : (e : ControlEffect) (f : Futures) → e.kind ≡ EffectKind.spawn → answer e f ≡ f
unfolding answer
answer-spawn e f k = rw (answer, k) refl

pub cost_pos : (e : ControlEffect) → 1 ≤ cost e
cost_pos e = elim e.kind as (λ k. 1 ≤ elim k [ EffectKind.spawn ↦ 5 | _ ↦ 1 ]) [
  | EffectKind.spawn ↦ omega arith
  | _ ↦ omega arith
]

regroup :
    (done : List ControlEffect) (e : ControlEffect) (pending more : List ControlEffect)
    → (done ++ e ∷ pending) ++ more ≡ (done ++ e ∷ []) ++ (pending ++ more)
regroup [] e pending more = refl
regroup (x ∷ done) e pending more = ap (◌∷◌ x) (regroup done e pending more)

regroup_past :
    (past done : List ControlEffect) (e : ControlEffect) (pending more : List ControlEffect)
    → (past ++ (done ++ e ∷ pending)) ++ more ≡ past ++ ((done ++ e ∷ []) ++ (pending ++ more))
regroup_past [] done e pending more = regroup done e pending more
regroup_past (x ∷ past) done e pending more = ap (◌∷◌ x) (regroup_past past done e pending more)

advance :
    (done : List ControlEffect) (e : ControlEffect) (pending : List ControlEffect)
    → done ++ e ∷ pending ≡ (done ++ e ∷ []) ++ pending
advance [] e pending = refl
advance (x ∷ done) e pending = ap (◌∷◌ x) (advance done e pending)

-- The drive that a round leaves costs less, and a round raises nothing.
abbrev pub Left :
    Start
    → ControlEffect
    → List ControlEffect
    → SkeletonPool
    → List ControlEffect
    → SkeletonPool
    → Type 0
Left s e pending p rest p' =
    Driving s rest p'
    × (suc (costs rest + potential p'.core) ≤ costs (e ∷ pending) + potential p.core)

abbrev pub Goes : Start → ControlEffect → List ControlEffect → SkeletonPool → Turn → Type 0
Goes s e pending p (went p' more) = Left s e pending p (pending ++ more) p'
Goes s e pending p (threw p') = ⊥

-- The same drive after the slots have been synchronised.
pub Driving-Still :
    {s : Start} {rest : List ControlEffect} (p p' : SkeletonPool)
    → Still p p'
    → Driving s rest p
    → Driving s rest p'
Driving-Still {s} {rest} p p' same d = record {
  events = d.events;
  done = d.done;
  history =
      subst (λ c. Reached s.target d.events c (s.past ++ (d.done ++ rest))) (sym same.core)
        d.history;
  owes = λ j. rw (same.core) (d.owes j);
  futures = same.futures ∙ d.futures;
  sends = same.sends ∙ d.sends;
  mirrored =
      subst (λ c. IsMirrored (names p'.slots) c rest) (sym same.core)
        (subst (λ m. IsMirrored m p.core rest) (sym same.names) d.mirrored);
  shut = λ h. same.closing ∙ d.shut (rw same.core at h);
  stays = rw same.core d.stays;
}

module _ {s : Start} {e : ControlEffect} {pending : List ControlEffect} {p : SkeletonPool}
    (d : Driving s (e ∷ pending) p) where
  -- The effect carried out with no event for the core.
  pub Goes-carried : (p' : SkeletonPool) → Carries p e pending p' → Goes s e pending p (went p' [])
  Goes-carried p' c =
      subst (λ rest. Left s e pending p rest p') (sym (append-nil pending))
        (
          record {
            events = d.events;
            done = d.done ++ e ∷ [];
            history =
                subst
                  (λ core.
                    Reached s.target d.events core (s.past ++ ((d.done ++ e ∷ []) ++ pending)))
                  (sym c.core)
                  (subst (λ fx. Reached s.target d.events p.core (s.past ++ fx))
                    (advance d.done e pending) d.history);
            owes = λ j. rw (c.core) (
                subst (λ fx. count j (jobs p.core) + count j (ended fx) ≡ s.owed j)
                  (advance d.done e pending) (d.owes j));
            futures =
                c.futures ∙ ap (answer e) d.futures ∙ sym (answer_all-last d.done e s.futures);
            sends =
                c.sends
                ∙ ap (λ sent. sent ++ send_of e) d.sends
                ∙ sym (sends_of-last s.sent d.done e);
            mirrored =
                subst (λ core. IsMirrored (names p'.slots) core pending) (sym c.core) c.mirrored;
            shut = λ h. c.closing ∙ d.shut (rw c.core at h);
            stays = rw c.core d.stays;
          },
          omega (arith, cost_pos e, ap potential c.core),
        )

  -- The effect was a SPAWN, and its outcome `event` brings the core's next effects. The live slots are
  -- `slots` by then.
  pub Goes-fed :
      (event : ControlEvent) (p' : SkeletonPool)
      → e.kind ≡ EffectKind.spawn
      → p'.core ≡ p.core
      → p'.futures ≡ p.futures
      → p'.recovery ≡ p.recovery
      → p'.calls ≡ p.calls
      → is_close event.kind ≡ false
      → IsDelivered p.core event
      → accepted event.kind p.core event ≡ []
      → costs (transition p.core event).1 + potential (transition p.core event).0
        ≤ 4 + potential p.core
      → IsMirrored
          (names p'.slots)
          (transition p.core event).0
          (pending ++ (transition p.core event).1)
      → Goes s e pending p (feed event p')
  unfolding feed
  Goes-fed event p' k core futures recovery calls calm delivered unasked spent mirrored =
      rw (core, (apply-IsValid p.core event valid delivered).0)
        (
          record {
            events = event ∷ d.events;
            done = d.done ++ e ∷ [];
            history =
                subst (Reached s.target (event ∷ d.events) (transition p.core event).0)
                  (regroup_past s.past d.done e pending (transition p.core event).1)
                  (next event d.history delivered);
            owes = λ j.
                subst
                  (λ fx. count j (jobs (transition p.core event).0) + count j (ended fx) ≡ s.owed j)
                  (regroup d.done e pending (transition p.core event).1)
                  (omega (
                    arith,
                    count-ended-append j (d.done ++ e ∷ pending) (transition p.core event).1,
                    d.owes j,
                    transition-conserves j p.core event valid delivered,
                    ap (count j) unasked,
                  ));
            futures =
                futures
                ∙ d.futures
                ∙ sym (
                    answer_all-last d.done e s.futures
                    ∙ answer-spawn e (answer_all d.done s.futures) k);
            sends =
                ap sends_in calls
                ∙ d.sends
                ∙ sym (append-nil (s.sent ++ sends_of d.done))
                ∙ sym (ap (◌++◌ (s.sent ++ sends_of d.done)) unsent)
                ∙ sym (sends_of-last s.sent d.done e);
            mirrored = mirrored;
            shut = λ h. rw recovery (d.shut (sym (transition-Leaves p.core event calm) ∙ h));
            stays = transition-Leaves p.core event calm ∙ d.stays;
          },
          omega (arith, spent, costs-append pending (transition p.core event).1, ap cost_of k),
        )
    where
      valid : IsValid p.core
      valid = Reached-IsValid d.history

      unsent : send_of e ≡ []
      unsent = rw k refl

      cost_of : EffectKind → ℕ
      cost_of k = elim k [ EffectKind.spawn ↦ 5 | _ ↦ 1 ]
