-- ===== src/Child/Delays.antt =====
-- The backoff of service_child_loop in reaper/pool.py.
use reaper.Base.{
  ℕ, ◌≤◌, ◌≡◌, sym, subst, ◌*◌, min, Bool, true, false, List, [], ◌∷◌, ◌++◌, All, arith, if_elim,
  if◌then◌else◌,
}
use reaper.Child.Types.{sleeps}
use reaper.Child.Service.{Round, service_child_loop}
use reaper.Child.Rounds.{faults, goes_on, naps, rounds-Told}

module _ (retry_base retry_max : ℕ) (ordered : retry_base ≤ retry_max) where
  abbrev Within : ℕ → Type 0
  Within d = (retry_base ≤ d) × (d ≤ retry_max)

  doubled : (d : ℕ) → Within d → Within (min (d * 2) retry_max)
  doubled d h = (omega (arith, ordered, h.0), omega arith)

  front :
      (d : ℕ) (rest : List ℕ) (f g : Bool)
      → Within d
      → All Within rest
      → All Within ((if f then d ∷ [] else []) ++ (if g then rest else []))
  front d rest true true h k = (h, k)
  front d rest true false h k = (h, tt)
  front d rest false true h k = k
  front d rest false false h k = tt

  naps-Within :
      (backoff : ℕ) (rs : List Round)
      → Within backoff
      → All Within (naps retry_base retry_max backoff rs)
  naps-Within backoff [] h = tt
  naps-Within backoff (r ∷ rs) h =
      let d = if r.healthy then retry_base else backoff in
      let here : Within d = if_elim Within r.healthy _ _ (λ _. (omega arith, ordered)) (λ _. h) in
      front d _ (faults r) (goes_on r) here
        (naps-Within (min (d * 2) retry_max) rs (doubled d here))

-- A child sleeps once in each round in which its service ends by itself before the child is told to stop,
-- so before each new start, and in no other: for the base when the service was healthy in that round, and
-- else for the double of the sleep before, up to the maximum. With a base of at most the maximum, all
-- sleeps are between the two.
pub service_child_loop-sleeps :
    (retry_base retry_max : ℕ) (stop_failed : Bool) (rs : List Round)
    → retry_base ≤ retry_max
    → (sleeps (service_child_loop retry_base retry_max stop_failed rs).0
        ≡ naps retry_base retry_max retry_base rs)
      × All
          (λ d. (retry_base ≤ d) × (d ≤ retry_max))
          (sleeps (service_child_loop retry_base retry_max stop_failed rs).0)
unfolding service_child_loop
service_child_loop-sleeps retry_base retry_max stop_failed rs ordered =
    let told =
      (rounds-Told retry_base retry_max stop_failed rs
        (record { backoff = retry_base; announced = false })).1 in
    (
      told,
      subst (All (λ d. (retry_base ≤ d) × (d ≤ retry_max))) (sym told)
          (naps-Within retry_base retry_max ordered retry_base rs (omega arith, ordered)),
    )
