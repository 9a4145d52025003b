-- ===== src/Pool/Finishes.antt =====
-- The loop of drive of SkeletonPool in reaper/pool.py ends, and what it leaves.
use reaper.Base.{ℕ, zero, suc, ◌+◌, ◌≤◌, refl, List, [], ◌∷◌, ◌++◌, arith, nat_eq}
use reaper.Control.Types.{ControlEffect}
use reaper.Control.Core.{identity_eq}
use reaper.Control.Costs.{costs, potential}
use reaper.Pool.Slots.{SkeletonPool, sync_slots}
use reaper.Pool.Drive.{
  Host, Turn, went, threw, drive_effect, Driven, driven, raised, unfinished, drive,
}
use reaper.Pool.Rounds.{Still-sync}
use reaper.Pool.Carries.{IsServed, Start, Driving, Driving-Still, Goes, cost_pos}
use reaper.Pool.Turns.{Goes-effect}

-- What a drive that ends leaves: nothing is pending.
abbrev pub Finishes : Start → Driven → Type 0
Finishes s (driven p) = Driving s [] p
Finishes s (raised p) = ⊥
Finishes s (unfinished p pending) = ⊥

pub drive-Finishes :
    (host : Host)
    → IsServed host
    → {s : Start} (fuel : ℕ) (pending : List ControlEffect) (p : SkeletonPool) → Driving s pending p
    → costs pending + potential p.core ≤ fuel
    → Finishes s (drive host fuel pending p)
unfolding drive
drive-Finishes host served fuel [] p d enough = Driving-Still p (sync_slots p) (Still-sync p) d
drive-Finishes host served zero (e ∷ pending) p d enough =
    absurd (omega (arith, enough, cost_pos e))
drive-Finishes host served {s} (suc fuel) (e ∷ pending) p d enough =
    go (drive-Finishes host served fuel) (drive_effect host e.kind e p)
      (Goes-effect host served d e.kind refl)
  where
    go :
        ((later : List ControlEffect) (q : SkeletonPool)
          → Driving s later q
          → costs later + potential q.core ≤ fuel
          → Finishes s (drive host fuel later q))
        → (t : Turn) → Goes s e pending p t
        → Finishes s
            (elim t [ went q more ↦ drive host fuel (pending ++ more) q | threw q ↦ raised q ])
    go rest (went q more) g = rest (pending ++ more) q g.0 (omega (arith, g.1, enough))
    go rest (threw q) g = g
