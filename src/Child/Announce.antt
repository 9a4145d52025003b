-- ===== src/Child/Announce.antt =====
-- READY and HEALTHY of service_child_loop in reaper/pool.py.
use reaper.Base.{ℕ, ◌≡◌, sym, subst, Bool, true, false, List, [], ◌∷◌, ◌++◌, ◌||◌, if◌then◌else◌}
use reaper.Child.Types.{Message}
use reaper.Child.Service.{Round, service_child_loop, announcement}
use reaper.Child.Rounds.{announcements, serves, goes_on, heralds, rounds-Told}

-- One READY, and HEALTHY from then on.
abbrev pub InOrder : Bool → List Message → Type 0
InOrder announced [] = Unit
InOrder false (Message.ready ∷ ms) = InOrder true ms
InOrder true (Message.healthy ∷ ms) = InOrder true ms
InOrder announced (m ∷ ms) = ⊥

InOrder-rest : (a b : Bool) (ms : List Message) → InOrder a ms → InOrder a (if b then ms else [])
InOrder-rest a true ms h = h
InOrder-rest a false ms h = tt

heralds-step :
    (a b g : Bool) (ms : List Message)
    → InOrder (a || b) ms
    → InOrder a ((if b then announcement a ∷ [] else []) ++ (if g then ms else []))
heralds-step true true g ms h = InOrder-rest true g ms h
heralds-step false true g ms h = InOrder-rest true g ms h
heralds-step true false g ms h = InOrder-rest true g ms h
heralds-step false false g ms h = InOrder-rest false g ms h

heralds-InOrder : (a : Bool) (rs : List Round) → InOrder a (heralds a rs)
heralds-InOrder a [] = tt
heralds-InOrder a (r ∷ rs) =
    heralds-step a (serves r) (goes_on r) _ (heralds-InOrder (a || serves r) rs)

-- A resident service announces itself once in each round in which it becomes healthy before it ends and
-- before the child is told to stop, if the announcement can be sent, and in no other round: with READY
-- the first time and with HEALTHY every later time, up to the round after which it is not started again.
pub service_child_loop-announces :
    (retry_base retry_max : ℕ) (stop_failed : Bool) (rs : List Round)
    → (announcements (service_child_loop retry_base retry_max stop_failed rs).0 ≡ heralds false rs)
      × InOrder false (announcements (service_child_loop retry_base retry_max stop_failed rs).0)
unfolding service_child_loop
service_child_loop-announces retry_base retry_max stop_failed rs =
    let told =
      (rounds-Told retry_base retry_max stop_failed rs
        (record { backoff = retry_base; announced = false })).0 in
    (told, subst (InOrder false) (sym told) (heralds-InOrder false rs))
