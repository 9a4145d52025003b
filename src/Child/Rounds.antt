-- ===== src/Child/Rounds.antt =====
-- What each round of service_child_loop in reaper/pool.py announces and how long it sleeps, told by what
-- its waits found.
use reaper.Base.{
  ℕ, ◌≡◌, refl, sym, ap, ◌∙◌, ◌*◌, min, Bool, true, false, not, ◌&&◌, ◌||◌, List, [], ◌∷◌, ◌++◌,
  map, if◌then◌else◌, if_elim, arith,
}
use mathlib.Core.List.{append-nil}
use reaper.Skeleton.Types.{LifecycleEvent}
use reaper.Child.Types.{Message, Action, report, send, sleep, sleeps, sleeps-append, Ending}
use reaper.Child.Service.{
  Round, Loop, Next, again, broken, failed, fail_round, back_off, serve_on, announce, announcement,
  falter, after_begin, round, rounds, follow,
}

-- The announcements among the actions: the parent counts a READY child as started, and a HEALTHY
-- one as recovered.
abbrev pub announcements : List Action → List Message
announcements [] = []
announcements (send Message.ready ∷ acts) = Message.ready ∷ announcements acts
announcements (send Message.healthy ∷ acts) = Message.healthy ∷ announcements acts
announcements (a ∷ acts) = announcements acts

pub announcements-append :
    (xs ys : List Action) → announcements (xs ++ ys) ≡ announcements xs ++ announcements ys
announcements-append [] ys = refl
announcements-append (send Message.ready ∷ xs) ys =
    ap (λ ms. Message.ready ∷ ms) (announcements-append xs ys)
announcements-append (send Message.healthy ∷ xs) ys =
    ap (λ ms. Message.healthy ∷ ms) (announcements-append xs ys)
announcements-append (send Message.state ∷ xs) ys = announcements-append xs ys
announcements-append (send (Message.service_fault k t c) ∷ xs) ys = announcements-append xs ys
announcements-append (send (Message.result id ok) ∷ xs) ys = announcements-append xs ys
announcements-append (report e ∷ xs) ys = announcements-append xs ys
announcements-append (sleep d ∷ xs) ys = announcements-append xs ys

-- The service becomes healthy before it ends and before the child is told to stop, and its announcement
-- is sent.
abbrev pub serves : Round → Bool
serves r = not r.stop_before && (not r.stop_first && (r.healthy && r.announce_sent))

-- The service ends by itself, before it is healthy or after its announcement.
abbrev pub faults : Round → Bool
faults r =
    not r.stop_before
    && (not r.stop_first && (if r.healthy then r.announce_sent && not r.stop_serving else true))

-- The child starts its service again.
abbrev pub goes_on : Round → Bool
goes_on r = faults r && not r.stop_delay

-- READY by the first round that serves, and HEALTHY by each later one, up to the last round.
abbrev pub heralds : Bool → List Round → List Message
heralds announced [] = []
heralds announced (r ∷ rs) =
    let rest = heralds (announced || serves r) rs in
    (if serves r then announcement announced ∷ [] else []) ++ (if goes_on r then rest else [])

-- Each round that faults sleeps: for the base when it was healthy, and else for the double of the sleep
-- before it, at most the maximum.
abbrev pub naps : ℕ → ℕ → ℕ → List Round → List ℕ
naps retry_base retry_max backoff [] = []
naps retry_base retry_max backoff (r ∷ rs) =
    let d = if r.healthy then retry_base else backoff in
    let rest = naps retry_base retry_max (min (d * 2) retry_max) rs in
    (if faults r then d ∷ [] else []) ++ (if goes_on r then rest else [])

module _ (retry_base retry_max : ℕ) where
  abbrev nap : Round → Loop → ℕ
  nap r l = if r.healthy then retry_base else l.backoff

  -- What is left for the next round.
  abbrev Leads : Round → Loop → Next → Type 0
  Leads r l (again k) =
      (goes_on r ≡ true)
      × (k.backoff ≡ min (nap r l * 2) retry_max)
      × (k.announced ≡ (l.announced || serves r))
  Leads r l n = goes_on r ≡ false

  -- What a round tells and sleeps.
  abbrev Tells : Round → Loop → List Action × Next → Type 0
  Tells r l s =
      (announcements s.0 ≡ (if serves r then announcement l.announced ∷ [] else []))
      × (sleeps s.0 ≡ (if faults r then nap r l ∷ [] else []))
      × Leads r l s.1

  quiet :
      (es : List LifecycleEvent) (acts : List Action)
      → (announcements (map report es ++ acts) ≡ announcements acts)
        × (sleeps (map report es ++ acts) ≡ sleeps acts)
  quiet [] acts = (refl, refl)
  quiet (e ∷ es) acts = quiet es acts

  silent :
      (es : List LifecycleEvent)
      → (announcements (map report es) ≡ []) × (sleeps (map report es) ≡ [])
  silent [] = (refl, refl)
  silent (e ∷ es) = silent es

  heard :
      (a : Bool) (acts : List Action)
      → announcements acts ≡ []
      → announcements (send (announcement a) ∷ acts) ≡ announcement a ∷ []
  heard true acts q = ap (λ ms. Message.healthy ∷ ms) q
  heard false acts q = ap (λ ms. Message.ready ∷ ms) q

  heard_in :
      (r : Round) (l : Loop) (acts : List Action)
      → serves r ≡ true
      → announcements acts ≡ []
      → announcements (send (announcement l.announced) ∷ acts)
        ≡ (if serves r then announcement l.announced ∷ [] else [])
  heard_in r l acts h q =
      heard l.announced acts q ∙ ap (λ b. if b then announcement l.announced ∷ [] else []) (sym h)

  quiet_send : (a : Bool) (acts : List Action) → sleeps (send (announcement a) ∷ acts) ≡ sleeps acts
  quiet_send a acts = refl

  failing :
      (r : Round) (d : ℕ)
      → (announcements (fail_round r d) ≡ []) × (sleeps (fail_round r d) ≡ d ∷ [])
  unfolding fail_round
  failing r d = (ground arith, ground arith)

  -- The end of a round that faults, after what it has announced.
  backing :
      (r : Round) (f l : Loop) (before : List Action)
      → faults r ≡ true
      → l.backoff ≡ nap r f
      → l.announced ≡ (f.announced || serves r)
      → announcements before ≡ (if serves r then announcement f.announced ∷ [] else [])
      → sleeps before ≡ []
      → Tells r f (before ++ (back_off retry_max r l).0, (back_off retry_max r l).1)
  unfolding back_off
  backing r f l before bad same flag said still =
      let fails = failing r l.backoff in
      let tells =
        announcements-append before (fail_round r l.backoff)
        ∙ ap (◌++◌ (announcements before)) fails.0
        ∙ append-nil (announcements before)
        ∙ said in
      let rests =
        sleeps-append before (fail_round r l.backoff)
        ∙ ap (λ ds. ds ++ sleeps (fail_round r l.backoff)) still
        ∙ fails.1
        ∙ ap (λ d. d ∷ []) same
        ∙ sym (rw bad refl) in
      if_elim (λ (s : List Action × Next). Tells r f (before ++ s.0, s.1)) r.stop_delay _ _
        (λ late. (tells, rests, ground (arith, bad, late)))
        (λ soon.
          (tells, rests, (ground (arith, bad, soon), ap (λ d. min (d * 2) retry_max) same, flag)))

  serving :
      (r : Round) (l : Loop)
      → r.stop_before ≡ false
      → r.stop_first ≡ false
      → r.healthy ≡ true
      → Tells r l (announce retry_base retry_max r l)
  unfolding announce serve_on
  serving r l open_ first well =
      if_elim (Tells r l) r.announce_sent _ _
        (λ sent.
          let serves_now : serves r ≡ true = ground (arith, open_, first, well, sent) in
          let said = heard_in r l (map report r.after) serves_now (silent r.after).0 in
          if_elim
            (λ (s : List Action × Next). Tells r l (send (announcement l.announced) ∷ s.0, s.1))
            r.stop_serving _ _
            (λ stop. (
              said,
              quiet_send l.announced (map report r.after)
                  ∙ (silent r.after).1
                  ∙ ground (arith, well, stop),
              ground (arith, well, stop),
            ))
            (λ on.
              backing r l (record { backoff = retry_base; announced = true })
                (send (announcement l.announced) ∷ map report r.after)
                (ground (arith, open_, first, well, sent, on)) (rw well refl)
                (ground (arith, open_, first, well, sent)) said
                (quiet_send l.announced (map report r.after) ∙ (silent r.after).1)))
        (λ unsent. (
          ground (arith, well, unsent),
          ground (arith, well, unsent),
          ground (arith, well, unsent),
        ))

  faltering :
      (r : Round) (l : Loop)
      → r.stop_before ≡ false
      → r.stop_first ≡ false
      → r.healthy ≡ false
      → Tells r l (falter retry_max r l)
  faltering r l open_ first ill =
      backing r l l (map report r.after) (ground (arith, open_, first, ill)) (rw ill refl)
        (ground (arith, ill)) ((silent r.after).0 ∙ ground (arith, ill)) (silent r.after).1

  beginning :
      (r : Round) (l : Loop) (s : List Action × Next) → Tells r l s → Tells r l (after_begin r s)
  beginning r l s h = ((quiet r.before s.0).0 ∙ h.0, (quiet r.before s.0).1 ∙ h.1, h.2)

  round-Tells :
      (r : Round) (l : Loop) → r.stop_before ≡ false → Tells r l (round retry_base retry_max r l)
  unfolding round
  round-Tells r l open_ = beginning r l _ (
      if_elim (Tells r l) r.stop_first _ _
        (λ stop. (
          (silent r.after).0 ∙ ground (arith, stop),
          (silent r.after).1 ∙ ground (arith, stop),
          ground (arith, stop),
        ))
        (λ first.
          if_elim (Tells r l) r.healthy _ _ (serving r l open_ first) (faltering r l open_ first)))

  -- What is announced, and slept, from a loop on.
  abbrev Told : List Round → Loop → List Action × Ending → Type 0
  Told rs l s =
      (announcements s.0 ≡ heralds l.announced rs)
      × (sleeps s.0 ≡ naps retry_base retry_max l.backoff rs)

  no_more :
      {A : Type 0} (xs rest : List A) (b : Bool) → b ≡ false → xs ≡ xs ++ (if b then rest else [])
  no_more xs rest b h = sym (append-nil xs) ∙ ap (λ c. xs ++ (if c then rest else [])) (sym h)

  and_more :
      {A : Type 0} (xs ys rest : List A) (b : Bool)
      → b ≡ true
      → ys ≡ rest
      → xs ++ ys ≡ xs ++ (if b then rest else [])
  and_more xs ys rest b h same =
      ap (◌++◌ xs) same ∙ ap (λ c. xs ++ (if c then rest else [])) (sym h)

  following :
      (stop_failed : Bool) (rest : Loop → List Action × Ending) (r : Round) (rs : List Round)
      (l : Loop) (s : List Action × Next)
      → Tells r l s
      → ((k : Loop) → Told rs k (rest k))
      → Told (r ∷ rs) l (follow stop_failed rest s)
  unfolding follow
  following stop_failed rest r rs l (acts, failed) h ih =
      (h.0 ∙ no_more _ _ (goes_on r) h.2, h.1 ∙ no_more _ _ (goes_on r) h.2)
  following stop_failed rest r rs l (acts, broken) h ih = (
    announcements-append acts _
        ∙ append-nil (announcements acts)
        ∙ h.0
        ∙ no_more _ _ (goes_on r) h.2,
    sleeps-append acts _ ∙ append-nil (sleeps acts) ∙ h.1 ∙ no_more _ _ (goes_on r) h.2,
  )
  following stop_failed rest r rs l (acts, again k) h ih = (
    announcements-append acts (rest k).0
        ∙ ap (λ xs. xs ++ announcements (rest k).0) h.0
        ∙ and_more _ _ _ (goes_on r) h.2.0 ((ih k).0 ∙ ap (λ a. heralds a rs) h.2.2),
    sleeps-append acts (rest k).0
        ∙ ap (λ xs. xs ++ sleeps (rest k).0) h.1
        ∙ and_more _ _ _ (goes_on r) h.2.0
            ((ih k).1 ∙ ap (λ b. naps retry_base retry_max b rs) h.2.1),
  )

  pub rounds-Told :
      (stop_failed : Bool) (rs : List Round) (l : Loop)
      → Told rs l (rounds retry_base retry_max stop_failed rs l)
  unfolding rounds
  rounds-Told stop_failed [] l = (refl, refl)
  rounds-Told stop_failed (r ∷ rs) l =
      if_elim (Told (r ∷ rs) l) r.stop_before _ _
        (λ stop. (ground (arith, stop), ground (arith, stop)))
        (λ open_.
          following stop_failed _ r rs l (round retry_base retry_max r l) (round-Tells r l open_)
            (rounds-Told stop_failed rs))
