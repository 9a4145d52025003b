-- ===== src/Child/Types.antt =====
-- What a child of reaper/pool.py does that others see: lifecycle reports, control messages, sleeps.
use reaper.Base.{ℕ, String, Bool, List, [], ◌∷◌, ◌++◌, ◌≡◌, refl, ap}
use reaper.Skeleton.Types.{LifecycleEvent}

-- The messages of a child's control socket, with the fields that the parent reads.
pub data Message : Type 0 where
  ready healthy state : Message
  service_fault : String → String → String → Message
  result : String → Bool → Message

pub data Action : Type 0 where
  report : LifecycleEvent → Action
  send : Message → Action
  sleep : ℕ → Action

-- How a loop ends: it waits for its input, returns, or an exception leaves it.
pub data Ending : Type 0 where
  waiting returned raised : Ending

abbrev pub reports : List Action → List LifecycleEvent
reports [] = []
reports (report e ∷ acts) = e ∷ reports acts
reports (a ∷ acts) = reports acts

abbrev pub sent : List Action → List Message
sent [] = []
sent (send m ∷ acts) = m ∷ sent acts
sent (a ∷ acts) = sent acts

abbrev pub sleeps : List Action → List ℕ
sleeps [] = []
sleeps (sleep d ∷ acts) = d ∷ sleeps acts
sleeps (a ∷ acts) = sleeps acts

pub reports-append : (xs ys : List Action) → reports (xs ++ ys) ≡ reports xs ++ reports ys
reports-append [] ys = refl
reports-append (report e ∷ xs) ys = ap (λ es. e ∷ es) (reports-append xs ys)
reports-append (send m ∷ xs) ys = reports-append xs ys
reports-append (sleep d ∷ xs) ys = reports-append xs ys

pub sent-append : (xs ys : List Action) → sent (xs ++ ys) ≡ sent xs ++ sent ys
sent-append [] ys = refl
sent-append (report e ∷ xs) ys = sent-append xs ys
sent-append (send m ∷ xs) ys = ap (λ ms. m ∷ ms) (sent-append xs ys)
sent-append (sleep d ∷ xs) ys = sent-append xs ys

pub sleeps-append : (xs ys : List Action) → sleeps (xs ++ ys) ≡ sleeps xs ++ sleeps ys
sleeps-append [] ys = refl
sleeps-append (report e ∷ xs) ys = sleeps-append xs ys
sleeps-append (send m ∷ xs) ys = sleeps-append xs ys
sleeps-append (sleep d ∷ xs) ys = ap (λ ds. d ∷ ds) (sleeps-append xs ys)
