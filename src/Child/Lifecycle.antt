-- ===== src/Child/Lifecycle.antt =====
-- The lifecycle core of reaper/skeleton.py under the reports of service_child_loop in reaper/pool.py.
use reaper.Base.{
  ℕ, ◌≡◌, refl, sym, ◌∙◌, ap, subst, ◌⊎◌, inl, inr, Bool, true, some, List, [], ◌∷◌, ◌++◌, map,
  if_elim, All,
}
use mathlib.Core.List.{append-nil, append_assoc}
use reaper.Skeleton.Types.{
  SkeletonPhase, ListenerPhase, LifecycleKind, LifecycleEvent, SkeletonCore,
}
use reaper.Skeleton.Core.{init}
use reaper.Skeleton.Driver.{
  event, drive, core, drive-append, drive_step, drive-nil, lifecycle-start, lifecycle-fault,
  drive-stopped, Accepted, Accepted-nil, Accepted-append, Accepted-front,
}
use reaper.Child.Types.{Action, report, reports, reports-append, Ending}
use reaper.Child.Service.{
  Round, Loop, Next, again, broken, failed, fail_round, back_off, serve_on, announce, falter,
  after_begin, round, rounds, service_child_loop, close_child, follow,
}

abbrev pub connecting : ℕ → SkeletonCore
connecting g = core SkeletonPhase.connecting ListenerPhase.closed g

-- A round in which the service's own reports are accepted by a child that connects.
abbrev pub Suits : Round → Type 0
Suits r = (g : ℕ) → Accepted (connecting g) (r.before ++ r.after)

fault : Round → LifecycleEvent
fault r = record (event LifecycleKind.fault) { detail = r.detail }

reports-prefix :
    (es : List LifecycleEvent) (acts : List Action)
    → reports (map report es ++ acts) ≡ es ++ reports acts
reports-prefix [] acts = refl
reports-prefix (e ∷ es) acts = ap (λ xs. e ∷ xs) (reports-prefix es acts)

reports-map : (es : List LifecycleEvent) → reports (map report es) ≡ es
reports-map [] = refl
reports-map (e ∷ es) = ap (λ xs. e ∷ xs) (reports-map es)

reports-fail_round : (r : Round) (d : ℕ) → reports (fail_round r d) ≡ fault r ∷ []
unfolding fail_round fault
reports-fail_round r d =
    if_elim (λ acts. fault r ∷ reports (acts ++ Action.sleep d ∷ []) ≡ fault r ∷ []) r.fault_sent _
      _ (λ _. refl) (λ _. refl)

abbrev Over : Next → Type 0
Over (again l) = ⊥
Over n = Unit

-- What a round reports after `before`: the rest of the service's reports, with a fault when the loop
-- may go on; or nothing, when an announcement fails.
abbrev Tail : Round → List Action × Next → Type 0
Tail r s =
    (reports s.0 ≡ r.after ++ fault r ∷ [])
    ⊎ ((reports s.0 ≡ r.after) × Over s.1)
    ⊎ ((reports s.0 ≡ []) × Over s.1)

Fault-back_off : (m : ℕ) (r : Round) (l : Loop) → reports (back_off m r l).0 ≡ fault r ∷ []
unfolding back_off
Fault-back_off m r l =
    if_elim (λ (s : List Action × Next). reports s.0 ≡ fault r ∷ []) r.stop_delay _ _
      (λ _. reports-fail_round r l.backoff) (λ _. reports-fail_round r l.backoff)

Tail-falter : (m : ℕ) (r : Round) (l : Loop) → Tail r (falter m r l)
Tail-falter m r l = inl (reports-prefix r.after _ ∙ ap (λ xs. r.after ++ xs) (Fault-back_off m r l))

Tail-serve_on : (b m : ℕ) (r : Round) (l : Loop) → Tail r (serve_on b m r l)
unfolding serve_on
Tail-serve_on b m r l =
    if_elim (Tail r) r.stop_serving _ _ (λ _. inr (inl (reports-map r.after, tt)))
      (λ _. Tail-falter m r (record { backoff = b; announced = true }))

Tail-announce : (b m : ℕ) (r : Round) (l : Loop) → Tail r (announce b m r l)
unfolding announce
Tail-announce b m r l =
    if_elim (Tail r) r.announce_sent _ _ (λ _. Tail-serve_on b m r l) (λ _. inr (inr (refl, tt)))

-- Where a round leads from a core whose listener is closed.
abbrev Rounds : SkeletonCore → List Action × Next → Type 0
Rounds c (acts, again l) =
    (g : ℕ) × (drive c (reports acts) ≡ some (core SkeletonPhase.backoff ListenerPhase.closed g))
Rounds c (acts, next) = Accepted c (reports acts)

drive-fault :
    (r : Round) (c : SkeletonCore)
    → drive c (fault r ∷ [])
      ≡ some (core SkeletonPhase.backoff ListenerPhase.closed c.listener_generation)
unfolding fault
drive-fault r c = drive_step _ _ _ _ (lifecycle-fault c r.detail) ∙ drive-nil _

Rounds-again :
    (c : SkeletonCore) (s : List Action × Next) (g : ℕ)
    → drive c (reports s.0) ≡ some (core SkeletonPhase.backoff ListenerPhase.closed g)
    → Rounds c s
Rounds-again c (acts, again l) g h = (g, h)
Rounds-again c (acts, broken) g h = (_, h)
Rounds-again c (acts, failed) g h = (_, h)

Rounds-Over :
    (c : SkeletonCore) (s : List Action × Next) → Over s.1 → Accepted c (reports s.0) → Rounds c s
Rounds-Over c (acts, again l) over h = absurd over
Rounds-Over c (acts, broken) over h = h
Rounds-Over c (acts, failed) over h = h

module _ (r : Round) (suits : Suits r) (p : SkeletonPhase) (g : ℕ) where
  abbrev at_start : SkeletonCore
  at_start = core p ListenerPhase.closed g

  drive-begin :
      (s : List Action × Next)
      → drive at_start (reports (after_begin r s).0)
        ≡ drive (connecting g) (r.before ++ reports s.0)
  drive-begin s =
      drive_step _ _ _ _ (lifecycle-start at_start)
      ∙ ap (drive (connecting g)) (reports-prefix r.before s.0)

  -- The reports of a round that goes on with the service's.
  drive-served :
      (last : SkeletonCore)
      → drive (connecting g) (r.before ++ r.after) ≡ some last
      → drive (connecting g) (r.before ++ (r.after ++ fault r ∷ []))
        ≡ some (core SkeletonPhase.backoff ListenerPhase.closed last.listener_generation)
  drive-served last h =
      ap (drive (connecting g)) (sym (append_assoc r.before r.after (fault r ∷ [])))
      ∙ drive-append (connecting g) last (r.before ++ r.after) _ h
      ∙ drive-fault r last

  Rounds-after_begin : (s : List Action × Next) → Tail r s → Rounds at_start (after_begin r s)
  Rounds-after_begin s (inl q) =
      let (last, h) = suits g in
      Rounds-again at_start (after_begin r s) last.listener_generation
        (drive-begin s ∙ ap (λ es. drive (connecting g) (r.before ++ es)) q ∙ drive-served last h)
  Rounds-after_begin s (inr (inl (q, over))) =
      let (last, h) = suits g in
      Rounds-Over at_start (after_begin r s) over
        (last, drive-begin s ∙ ap (λ es. drive (connecting g) (r.before ++ es)) q ∙ h)
  Rounds-after_begin s (inr (inr (q, over))) =
      let (last, h) = Accepted-front (connecting g) r.before r.after (suits g) in
      Rounds-Over at_start (after_begin r s) over (
        last,
        drive-begin s
            ∙ ap (λ es. drive (connecting g) (r.before ++ es)) q
            ∙ ap (drive (connecting g)) (append-nil r.before)
            ∙ h,
      )

  Rounds-round : (b m : ℕ) (l : Loop) → Rounds at_start (round b m r l)
  unfolding round
  Rounds-round b m l = Rounds-after_begin _ (
      if_elim (Tail r) r.stop_first _ _ (λ _. inr (inl (reports-map r.after, tt)))
        (λ _. if_elim (Tail r) r.healthy _ _ (λ _. Tail-announce b m r l) (λ _. Tail-falter m r l)))

Accepted-close_child : (c : SkeletonCore) (f : Bool) → Accepted c (reports (close_child f).0)
Accepted-close_child c f = (_, drive-stopped c)

Accepted-follow :
    (c : SkeletonCore) (stop_failed : Bool) (rest : Loop → List Action × Ending)
    (s : List Action × Next)
    → Rounds c s
    → ((g : ℕ) (l : Loop)
        → Accepted (core SkeletonPhase.backoff ListenerPhase.closed g) (reports (rest l).0))
    → Accepted c (reports (follow stop_failed rest s).0)
unfolding follow
Accepted-follow c stop_failed rest (acts, failed) h ih = h
Accepted-follow c stop_failed rest (acts, broken) (last, h) ih =
    subst (Accepted c) (sym (reports-append acts _))
      (Accepted-append c last (reports acts) _ h (Accepted-close_child last stop_failed))
Accepted-follow c stop_failed rest (acts, again l) (g, h) ih =
    subst (Accepted c) (sym (reports-append acts _))
      (Accepted-append c _ (reports acts) _ h (ih g l))

Accepted-rounds :
    (b m : ℕ) (stop_failed : Bool) (rs : List Round) (l : Loop) (p : SkeletonPhase) (g : ℕ)
    → All Suits rs
    → Accepted (core p ListenerPhase.closed g) (reports (rounds b m stop_failed rs l).0)
unfolding rounds
Accepted-rounds b m stop_failed [] l p g suits = Accepted-nil _
Accepted-rounds b m stop_failed (r ∷ rs) l p g suits =
    if_elim (λ (s : List Action × Ending). Accepted (core p ListenerPhase.closed g) (reports s.0))
      r.stop_before _ _ (λ _. Accepted-close_child _ stop_failed)
      (λ _.
        Accepted-follow _ stop_failed _ (round b m r l) (Rounds-round r suits.0 p g b m l)
          (λ h l'. Accepted-rounds b m stop_failed rs l' SkeletonPhase.backoff h suits.1))

-- When a child that connects accepts what the service reports in each round, every report of the
-- resident child is accepted: its own starts, faults and stop included, from its first round on.
pub service_child_loop-Accepted :
    (retry_base retry_max : ℕ) (stop_failed : Bool) (rs : List Round)
    → All Suits rs
    → Accepted init (reports (service_child_loop retry_base retry_max stop_failed rs).0)
unfolding service_child_loop
service_child_loop-Accepted retry_base retry_max stop_failed rs suits =
    Accepted-rounds retry_base retry_max stop_failed rs _ SkeletonPhase.starting 0 suits
