-- ===== src/Pool/Begins.antt =====
-- The start of a pool in reaper/pool.py and the operations that follow it: what they leave.
use reaper.Base.{
  ℕ, suc, ◌+◌, ◌≤◌, ◌≡◌, refl, String, true, false, List, [], ◌∷◌, ◌++◌, arith, count, count-append,
  nat_eq, string_eq, ◌==◌, ◌||◌, not, if_elim, length, All,
}
use reaper.Control.Types.{SkeletonId, EventKind}
use reaper.Pool.Slots.{SkeletonPool}
use reaper.Pool.Drive.{Host, Driven, driven, raised, unfinished}
use reaper.Pool.Operations.{Incoming, ◌>>=◌, perform, plain_event}
use reaper.Pool.Teardown.{wind_down, close, shut_down}
use reaper.Pool.Carries.{IsServed}
use reaper.Pool.Serving.{IsServing, Serves}
use reaper.Pool.Serves.{perform-calm, Serving-beside}
use reaper.Pool.Stays.{Stays, perform-Stays, operate_all-Stays}
use reaper.Pool.Lives.{
  Operation, operate_all, asked, new_pool, new_pool-IsServing, ServesSome, operate_all-Serves,
  wind_down-Serves,
}
use reaper.Pool.Starting.{
  Wait, all_idle, is_ready, has_error, Begun, begun, waiting, shut, gave_up, after, after_drive,
  await_ready, start_up, start,
}

-- The jobs that are submitted during the wait.
abbrev pub asked_in : List Wait → List String
asked_in [] = []
asked_in (w ∷ waits) = asked w.operations ++ asked_in waits

-- No slot and no job is left of a pool.
abbrev pub IsGone : Driven → Type 0
IsGone (driven q) = (q.slots ≡ []) × (q.futures.jobs ≡ []) × (q.started ≡ false)
IsGone (raised q) = ⊥
IsGone (unfinished q es) = ⊥

-- A pool that serves and has started, with each job taken at most as often as `most` says.
abbrev pub Up : ℕ → (String → ℕ) → SkeletonPool → Type 0
Up n most q =
    (q.started ≡ true)
    × ((seen : List String) × ((j : String) → count j seen ≤ most j) × IsServing n seen false q)

abbrev pub EndsWell : ℕ → (String → ℕ) → Begun → Type 0
EndsWell n most (begun q) =
    (length q.slots ≡ q.core.target) × (all_idle q.slots ≡ true) × Up n most q
EndsWell n most (waiting q) = Up n most q
EndsWell n most (gave_up r) = IsGone r
EndsWell n most (shut q) = ⊥

IsGone-shut_down :
    (n : ℕ) (seen : List String) (r : Driven) → Serves n seen true r → IsGone (r >>= shut_down)
IsGone-shut_down n seen (driven q) d = (refl, refl, refl)
IsGone-shut_down n seen (raised q) d = d
IsGone-shut_down n seen (unfinished q es) d = d

All-parts :
    {A : Type 0} (Q : A → Type 0) (front back : List A)
    → All Q (front ++ back)
    → All Q front × All Q back
All-parts Q [] back h = (tt, h)
All-parts Q (a ∷ front) back h = let rest = All-parts Q front back h.1 in ((h.0, rest.0), rest.1)

EndsWell-after :
    {n : ℕ} {bound : String → ℕ} (most : String → ℕ) (r : Driven) (f : SkeletonPool → Begun)
    → Stays r
    → ServesSome n bound r
    → ((q : SkeletonPool) (seen : List String)
        → ((j : String) → count j seen ≤ bound j)
        → q.started ≡ true
        → IsServing n seen false q
        → EndsWell n most (f q))
    → EndsWell n most (after r f)
EndsWell-after most (driven q) f up s k = k q s.0 s.1 up s.2
EndsWell-after most (raised q) f up s k = absurd s.2
EndsWell-after most (unfinished q es) f up s k = absurd s.2

module _ (host : Host) (served : IsServed host) {n : ℕ} (most : String → ℕ) where
  close-IsGone :
      (arrivals : List (SkeletonId × Incoming)) (p : SkeletonPool)
      → Up n most p
      → IsGone (close host arrivals p)
  unfolding close
  close-IsGone arrivals p (h, (seen, few, d)) =
      if_elim IsGone (not p.started) _ _ (λ off. absurd (ground arith))
        (λ _.
          IsGone-shut_down n seen (wind_down host arrivals p)
            (wind_down-Serves host served arrivals seen p d))

  await_ready-EndsWell :
      (arrivals : List (SkeletonId × Incoming)) (waits : List Wait) (seen : List String)
      (p : SkeletonPool)
      → All (λ job. ("" == job) ≡ false) (asked_in waits)
      → ((j : String) → count j (asked_in waits) + count j seen ≤ 1)
      → ((j : String) → count j (asked_in waits) + count j seen ≤ most j)
      → p.started ≡ true
      → IsServing n seen false p
      → EndsWell n most (await_ready host arrivals waits p)
  unfolding await_ready
  await_ready-EndsWell arrivals [] seen p named once few h d =
      let up : Up n most p = (h, (seen, (λ j. omega (arith, few j)), d)) in
      if_elim (EndsWell n most) (is_ready p) _ _ (λ r. (ground arith, ground arith, up))
        (λ _.
          if_elim (EndsWell n most) (has_error p) _ _ (λ _. close-IsGone arrivals p up) (λ _. up))
  await_ready-EndsWell arrivals (w ∷ waits) seen p named once few h d =
      let up : Up n most p = (h, (seen, (λ j. omega (arith, few j)), d)) in
      let split = λ (j : String). count-append j (asked w.operations) (asked_in waits) in
      let names = All-parts _ (asked w.operations) (asked_in waits) named in
      if_elim (EndsWell n most) (is_ready p) _ _ (λ r. (ground arith, ground arith, up))
        (λ _.
          if_elim (EndsWell n most) (has_error p || w.late) _ _ (λ _. close-IsGone arrivals p up)
            (λ _.
              EndsWell-after most (operate_all host w.operations p)
                (await_ready host arrivals waits) (operate_all-Stays host w.operations p h)
                (operate_all-Serves host served w.operations seen p names.0
                  (λ j. omega (arith, once j, split j)) d)
                (λ q seen_by bound on s.
                  await_ready-EndsWell arrivals waits seen_by q names.1
                    (λ j. omega (arith, once j, bound j, split j))
                    (λ j. omega (arith, few j, bound j, split j)) on s)))

-- An exception of the first drive does not happen.
EndsWell-drive :
    {n : ℕ} {seen : List String} (most : String → ℕ) (host : Host)
    (arrivals : List (SkeletonId × Incoming)) (r : Driven) (f : SkeletonPool → Begun)
    → Stays r
    → Serves n seen false r
    → ((q : SkeletonPool) → q.started ≡ true → IsServing n seen false q → EndsWell n most (f q))
    → EndsWell n most (after_drive host arrivals r f)
EndsWell-drive most host arrivals (driven q) f up d k = k q up d
EndsWell-drive most host arrivals (raised q) f up d k = absurd d
EndsWell-drive most host arrivals (unfinished q es) f up d k = absurd d

-- With a system that serves it, the start of a new pool with no child pools comes to one of three ends,
-- whatever messages arrive and whatever jobs are submitted while it waits, with ids that differ and are
-- not empty: it returns, with as many live slots as the target, all idle, and the pool serves; or it
-- raises, and no slot and no job is left; or it still waits for its children when the inputs end, and
-- the pool serves. The system is relied on to let the parent kill its children's groups.
pub start-EndsWell :
    (host : Host)
    → IsServed host
    → (n rounds queue_limit : ℕ) (arrivals : List (SkeletonId × Incoming)) (waits : List Wait)
    → All (λ job. ("" == job) ≡ false) (asked_in waits)
    → ((j : String) → count j (asked_in waits) ≤ 1)
    → EndsWell
        (suc n)
        (λ j. count j (asked_in waits))
        (start host arrivals waits (new_pool (suc n) rounds queue_limit))
unfolding start start_up
start-EndsWell host served n rounds queue_limit arrivals waits named once =
    EndsWell-drive (λ j. count j (asked_in waits)) host arrivals
      (perform host (plain_event EventKind.start) begun_pool) (await_ready host arrivals waits)
      (perform-Stays host (plain_event EventKind.start) begun_pool refl)
      (perform-calm host served (plain_event EventKind.start) begun_pool
        (record { free = tt; named = tt; matched = tt }) refl refl refl
        (Serving-beside (new_pool (suc n) rounds queue_limit) begun_pool refl refl refl refl refl
          (new_pool-IsServing n rounds queue_limit)))
      (λ q up d.
        await_ready-EndsWell host served (λ j. count j (asked_in waits)) arrivals waits [] q named
          (λ j. omega (arith, once j)) (λ j. omega arith) up d)
  where
    begun_pool : SkeletonPool
    begun_pool = record (new_pool (suc n) rounds queue_limit) { started = true }

-- What operations make of a start that has returned; a start that has not is as it is.
abbrev pub ServesOn : Host → List Operation → ℕ → (String → ℕ) → (String → ℕ) → Begun → Type 0
ServesOn host os n most all (begun q) = ServesSome n all (operate_all host os q)
ServesOn host os n most all b = EndsWell n most b
